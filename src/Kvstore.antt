-- ===== src/Kvstore.antt =====
-- proxy/internal/pkg/kvstore: the image store behind the proxy's content routes.
pub mod Store
pub mod Text
pub mod File
pub mod Registry
pub mod Images
pub mod Server
