-- ===== src/Proxy/Api/Steps/Served.antt =====
-- What holds of every proxy that is reached from its start.
use cloudlab_k8s.Prelude.{
  ℕ, zero, suc, ◌<◌, ◌≡◌, refl, ap, Bool, true, Option, none, some, String, length, nat_beq,
  if◌then◌else◌,
}
use cloudlab_k8s.Proxy.Types.{Ip, Net, status_ok, bad_request}
use cloudlab_k8s.Proxy.Run.{Run, pure, ◌>>=◌, Returns}
use cloudlab_k8s.Proxy.Pmap.{PrincipalIndex, IntTree, IsIntTree}
use cloudlab_k8s.Proxy.Pmap.Homes.{Home, new-IsHomed}
use cloudlab_k8s.Proxy.Cache.{RiakConn, get_instance_from_net_map}
use cloudlab_k8s.Proxy.Cache.Reload.{IsHonest}
use cloudlab_k8s.Proxy.Address.{parse_ip2}
use cloudlab_k8s.Proxy.Api.{Decoded, MetadataProxy, HttpRequest, new_auth, on_cache}
use cloudlab_k8s.Proxy.Api.Caches.{AllHomed}
use cloudlab_k8s.Proxy.Api.Authentic.{Grants, claimed, new_auth-Grants}
use cloudlab_k8s.Proxy.Api.Handler.{Safe}
use cloudlab_k8s.Proxy.Api.Links.{AddrReply, addr_reply, authenticate_addr, refused_addr}
use cloudlab_k8s.Proxy.Api.Steps.{
  Step, request_step, addr_step, pod_step, Reachable, started, stepped, new_caches, start_proxy,
}
use cloudlab_k8s.Proxy.Api.Steps.Kept.{
  IsServing, Kept, kept_bind, kept_pure, kept_if, get_cache-Kept, on_cache-Kept, net_map-Keeps,
}
use cloudlab_k8s.Proxy.Api.Steps.Routed.{route-kept}

module _ {Tree R W : Type 0} (safe : Safe W) (addr : String) (net : Net) (ops : IntTree Tree)
    (riak : RiakConn R) (hash : String → ℕ) (holds : Tree → PrincipalIndex → Bool)
    (laws : IsIntTree ops holds) (home : String → Option Home) (honest : IsHonest net home riak)
    (n : ℕ) where
  abbrev KeptHere : {A : Type 0} → Run (MetadataProxy Tree R W) A → Type 0
  KeptHere m = Kept net holds home n m

  abbrev Serving : MetadataProxy Tree R W → Type 0
  Serving = IsServing net holds home n

  authenticate_addr-Kept :
      (saddr : String) → KeptHere (authenticate_addr safe addr net ops riak hash saddr)
  unfolding authenticate_addr
  authenticate_addr-Kept saddr =
      kept_bind net holds home n _ _ (get_cache-Kept net ops riak holds laws home honest n hash "1")
        (λ cache. parsed cache (net.parse_ip (parse_ip2 saddr).0))
    where
      parsed :
          (cache : ℕ) (o : Option Ip)
          → KeptHere {A = AddrReply} (elim o as (λ _. Run (MetadataProxy Tree R W) AddrReply) [
            | none ↦ pure (refused_addr bad_request)
            | some netaddr ↦
                if nat_beq (parse_ip2 saddr).3 status_ok
                then (on_cache cache
                      (get_instance_from_net_map net ops riak netaddr (parse_ip2 saddr).1)
                    >>= λ answer. pure (addr_reply answer))
                else pure (refused_addr bad_request)
          ])
      parsed cache none = kept_pure net holds home n (refused_addr bad_request)
      parsed cache (some netaddr) =
          kept_if net holds home n (nat_beq (parse_ip2 saddr).3 status_ok) _ _
            (kept_bind net holds home n _ _
              (on_cache-Kept net holds home n cache _
                (net_map-Keeps net ops riak holds laws home honest netaddr _))
              (λ answer. kept_pure net holds home n (addr_reply answer)))
            (kept_pure net holds home n (refused_addr bad_request))

  new_caches-AllHomed :
      (k : ℕ) → (length (new_caches {Tree = Tree} k) ≡ k) × AllHomed net holds home (new_caches k)
  unfolding new_caches
  new_caches-AllHomed zero = (refl, tt)
  new_caches-AllHomed (suc k) =
      let (counted, homed) = new_caches-AllHomed k in
      (ap suc counted, (new-IsHomed net holds home, homed))

  Step-kept :
      (c c' : MetadataProxy Tree R W)
      → Step safe addr net ops riak hash home c c'
      → Serving c
      → Serving c'
  Step-kept c c' (request_step route f r reply _ _ q o e) s =
      route-kept safe addr net ops riak hash holds laws home honest n route f r reply c c' q o s e
  Step-kept c c' (addr_step saddr reply _ _ e) s = authenticate_addr-Kept saddr reply c c' s e
  Step-kept c c' (pod_step body _) s = record { caches = s.caches; homed = s.homed }

  -- The proxy from its start on, after any sequence of requests that it handled one after the other
  -- and each without a panic: it still has the caches of all its workers, and the two maps of each
  -- agree. The backend is honest; every instance that a request created or deleted has the address that
  -- its identity has, one that ComputeID takes; and one that was deleted had its left port at most one
  -- above its right port, which leaves out deletions of a target with a single port.
  pub Reachable-IsServing :
      (c : MetadataProxy Tree R W)
      → Reachable safe addr net ops riak hash home n c
      → IsServing net holds home n c
  unfolding start_proxy
  Reachable-IsServing c (started conn w) =
      let (counted, homed) = new_caches-AllHomed n in record { caches = counted; homed = homed }
  Reachable-IsServing c (stepped b _ reached step) =
      Step-kept b c step (Reachable-IsServing b reached)

  -- In a proxy with a worker, after any sequence of requests that it handled one after the other and
  -- each without a panic, newAuth of a decoded request whose principal must authenticate does not
  -- panic; it refuses with a status that is not OK, or grants the request as the provider or as the
  -- instance that the claimed principal is known as. The backend is honest; every instance that a
  -- request created or deleted has the address that its identity has, one that ComputeID takes; and one
  -- that was deleted had its left port at most one above its right port, which leaves out deletions of
  -- a target with a single port.
  pub Reachable-Grants :
      (c : MetadataProxy Tree R W) (r : HttpRequest) (d : Decoded)
      → Reachable safe addr net ops riak hash home n c
      → 0 < n
      → r.body ≡ some d
      → Returns
          (λ a (c' : MetadataProxy Tree R W).
            Grants net home (claimed r d) a × AllHomed net holds home c'.pmaps)
          (new_auth net ops riak hash r true c)
  Reachable-Grants c r d reached workers body =
      let s = Reachable-IsServing c reached in
      new_auth-Grants net ops riak hash holds laws home r d c body honest s.homed
        (rw (← s.caches) at workers)
