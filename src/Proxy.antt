-- ===== src/Proxy.antt =====
-- proxy: the metadata proxy itself (package main).
pub mod Types
pub mod Pmap
pub mod Run
pub mod Cache
pub mod Address
pub mod Fmt
pub mod Pods
pub mod Safeutils
pub mod Api
pub mod Riak
pub mod Main
