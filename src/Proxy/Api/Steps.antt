-- ===== src/Proxy/Api/Steps.antt =====
-- The proxy from its start on: main of proxy/server.go makes the caches, NewCache of proxy/cache.go
-- each of them, and from there on the proxy handles one request after the other.
pub mod Kept
pub mod Hooked
pub mod Writes
pub mod Configured
pub mod Routed
pub mod Served
use cloudlab_k8s.Prelude.{
  ℕ, zero, suc, ◌≡◌, true, Option, some, List, [], ◌∷◌, String, get_elem?, suc_ℤ, ◌≤ℤ◌,
}
use cloudlab_k8s.Proxy.Types.{Net, status_ok}
use cloudlab_k8s.Proxy.Run.{Run}
use cloudlab_k8s.Proxy.Pmap.{IntTree, Pmap, new_pmap}
use cloudlab_k8s.Proxy.Pmap.Homes.{Home, IsAtHome}
use cloudlab_k8s.Proxy.Cache.{RiakConn}
use cloudlab_k8s.Proxy.Pods.{PodRequest, post_pod_new}
use cloudlab_k8s.Proxy.Api.{MetadataRequest, MetadataProxy, HttpRequest, authenticated, new_auth}
use cloudlab_k8s.Proxy.Api.Handler.{Body, Safe, PreHook}
use cloudlab_k8s.Proxy.Api.Hooks.{
  pre_instance_call_handler, pre_vm_instance_call_handler, pre_legacy_instance_call_handler,
  pre_lazy_delete,
}
use cloudlab_k8s.Proxy.Api.Hooks.Outcomes.{created}
use cloudlab_k8s.Proxy.Api.Links.{AddrReply, authenticate_addr}
use cloudlab_k8s.Proxy.Api.Routes.{
  Route, handler, to_create_instance, to_create_instance_legacy, to_create_vm_instance,
  to_delete_instance, to_delete_vm_instance, to_lazy_delete_instance,
}

-- The caches of `n` workers, each with an empty map.
unfoldable pub new_caches : {Tree : Type 0} → ℕ → List (Pmap Tree)
new_caches zero = []
new_caches (suc n) = new_pmap ∷ new_caches n

unfoldable pub start_proxy : {Tree R W : Type 0} → ℕ → R → W → MetadataProxy Tree R W
start_proxy nworker conn safe = record {
  pmaps = new_caches nworker;
  conn = conn;
  pods = [];
  safe = safe;
}

-- What the request creates or deletes is an instance with the address that its identity has, one that
-- ComputeID takes.
abbrev pub IsPlaced : Net → (String → Option Home) → MetadataRequest → Type 0
IsPlaced net home mr =
    (pid : String) → get_elem? mr.other_values 0 ≡ some pid → IsAtHome net home (created mr pid)

-- What the request deletes is placed so, and its left port is not above the one behind its right port.
-- A target of a single port, whose right port is -1, is not.
abbrev pub IsPlacedInOrder : Net → (String → Option Home) → MetadataRequest → Type 0
IsPlacedInOrder net home mr = IsPlaced net home mr × (mr.target_lport ≤ℤ suc_ℤ mr.target_rport)

module _ {Tree R W : Type 0} (safe : Safe W) (addr : String) (net : Net) (ops : IntTree Tree)
    (riak : RiakConn R) (hash : String → ℕ) (home : String → Option Home) where
  -- Once newAuth and the first hook let the request pass, the condition holds of what is left of it.
  abbrev pub Passes :
      (MetadataRequest → Type 0)
      → PreHook (MetadataProxy Tree R W)
      → HttpRequest
      → MetadataProxy Tree R W
      → Type 0
  Passes placed pre r c =
      (mr mr' : MetadataRequest) (msg : Body) (d e : MetadataProxy Tree R W)
      → new_auth net ops riak hash r true c ≡ some (authenticated mr, d)
      → pre mr d ≡ some ((mr', msg, status_ok), e)
      → placed mr'

  -- A request to create or delete an instance is for one with the address that its identity has, and
  -- with its ports in order if it is to be deleted.
  abbrev pub IsOrderly : Route → HttpRequest → MetadataProxy Tree R W → Type 0
  IsOrderly to_create_instance r c =
      Passes (IsPlaced net home) (pre_instance_call_handler net ops riak) r c
  IsOrderly to_delete_instance r c =
      Passes (IsPlacedInOrder net home) (pre_instance_call_handler net ops riak) r c
  IsOrderly to_create_instance_legacy r c =
      Passes (IsPlaced net home) (pre_legacy_instance_call_handler net ops riak) r c
  IsOrderly to_create_vm_instance r c =
      Passes (IsPlaced net home) (pre_vm_instance_call_handler net ops riak) r c
  IsOrderly to_delete_vm_instance r c =
      Passes (IsPlacedInOrder net home) (pre_vm_instance_call_handler net ops riak) r c
  IsOrderly to_lazy_delete_instance r c =
      Passes (IsPlacedInOrder net home) (pre_lazy_delete net ops riak) r c
  IsOrderly _ r c = Unit

  -- A request is handled without a panic.
  pub data Step : MetadataProxy Tree R W → MetadataProxy Tree R W → Type 0 where
    request_step :
        (route : Route) (h : HttpRequest → Run (MetadataProxy Tree R W) (Body × ℕ))
        (r : HttpRequest) (reply : Body × ℕ) (c c' : MetadataProxy Tree R W)
        → handler safe addr net ops riak hash route ≡ some h
        → IsOrderly route r c
        → h r c ≡ some (reply, c')
        → Step c c'
    addr_step :
        (saddr : String) (reply : AddrReply) (c c' : MetadataProxy Tree R W)
        → authenticate_addr safe addr net ops riak hash saddr c ≡ some (reply, c')
        → Step c c'
    pod_step :
        (body : Option PodRequest) (c : MetadataProxy Tree R W)
        → Step c (record c { pods = (post_pod_new c.pods body).0 })

  -- What the proxy with `n` workers can come to.
  pub data Reachable (n : ℕ) : MetadataProxy Tree R W → Type 0 where
    started : (conn : R) (w : W) → Reachable n (start_proxy n conn w)
    stepped : (c c' : MetadataProxy Tree R W) → Reachable n c → Step c c' → Reachable n c'
