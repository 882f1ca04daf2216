-- ===== src/Kvstore/Server.antt =====
-- NewKvStore of proxy/internal/pkg/kvstore/server.go: the store that the image routes share, and the
-- routes. An error of NewStore, which it never returns, would end the process.
use cloudlab_k8s.Prelude.{ℕ, true, List, [], ◌∷◌, String, Text}
use cloudlab_k8s.Kvstore.Registry.{Registry, new_store}

-- The method of ImageHasher that a route calls.
pub data ImageRoute : Type 0 where
  to_get to_get_index to_put : ImageRoute

-- "kvstore"
abbrev kvstore_name : Text
kvstore_name = b'k' ∷ b'v' ∷ b's' ∷ b't' ∷ b'o' ∷ b'r' ∷ b'e' ∷ []

-- The registry with the store of the server, and the store.
unfoldable pub new_kv_store : Registry → Registry × ℕ
new_kv_store r = new_store r kvstore_name true

abbrev pub image_routes : List (String × ImageRoute)
image_routes =
    ("/get_content/{image}", to_get)
    ∷ ("/get_index/{hash}", to_get_index)
    ∷ ("/upload_image", to_put)
    ∷ []
