-- ===== src/Tests.antt =====
-- The theorems at concrete inputs: two images that share a layer, and principals on two hosts.
mod Kvstore
mod Proxy
mod Address
mod Shared
mod Api
mod Riak
mod Config
mod Restart
mod Steps
mod Setup
