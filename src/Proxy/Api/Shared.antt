-- ===== src/Proxy/Api/Shared.antt =====
-- Several caches of one proxy over the backend that they share (proxy/newapi.go's getCache picks one
-- for a request): what is written through one of them and read through another.
use cloudlab_k8s.Prelude.{
  ℕ, ◌<◌, ◌≡◌, refl, ap, ◌∙◌, Bool, true, Option, some, List, String, string_key, ℤ, ◌≤ℤ◌, set,
  length, length-set, if◌then◌else◌, arith,
}
use cloudlab_k8s.Proxy.Types.{Ip, Net, CachedInstance, status_ok, internal_server_error}
use cloudlab_k8s.Proxy.Pmap.{PrincipalIndex, IntTree, IsIntTree, In, Pmap}
use cloudlab_k8s.Proxy.Pmap.Homes.{Home, IsAtHome, put_cached_instance-IsHomed}
use cloudlab_k8s.Proxy.Cache.{RiakConn, Cache, found, get_instance_from_net_map, put_instance}
use cloudlab_k8s.Proxy.Cache.Reload.{IsHonest}
use cloudlab_k8s.Proxy.Cache.Lookups.{Owns}
use cloudlab_k8s.Proxy.Cache.Complete.{get_instance_from_net_map-Finds}
use cloudlab_k8s.Proxy.Cache.Serves.{AllPorted}
use cloudlab_k8s.Proxy.Cache.Writes.{put_instance_step}
use cloudlab_k8s.Proxy.Api.{MetadataProxy, on_cache}
use cloudlab_k8s.Proxy.Api.Caches.{
  AllHomed, AllHomed-at, AllHomed-set, get_elem?_in_range, on_cache-some,
}

module _ {Tree R W : Type 0} (net : Net) (ops : IntTree Tree) (riak : RiakConn R)
    (holds : Tree → PrincipalIndex → Bool) (laws : IsIntTree ops holds)
    (home : String → Option Home) where
  -- A lookup through the cache `j` finds an instance whose home has the address.
  abbrev pub FindsThrough : ℕ → Ip → ℤ → MetadataProxy Tree R W → Type 0
  FindsThrough j ip port c =
      (a : CachedInstance) × (d : MetadataProxy Tree R W) × (on_cache j
          (get_instance_from_net_map net ops riak ip port) c
        ≡ some (found a, d))
      × Owns net home ip port (found a)

  found_through :
      (c : MetadataProxy Tree R W) (j : ℕ) (inst : CachedInstance) (insts : List CachedInstance)
      → IsHonest net home riak
      → AllHomed net holds home c.pmaps
      → j < length c.pmaps
      → (riak.get_all_net_id inst.ip c.conn).0 ≡ some insts
      → AllPorted insts
      → In inst insts
      → (port : ℤ) → inst.lport ≤ℤ port
      → port ≤ℤ inst.rport
      → FindsThrough j inst.ip port c
  found_through c j inst insts honest homed hj all ported i_in port l r =
      let (m, at_j) = get_elem?_in_range c.pmaps j hj in
      let (a, k, eq, owns) =
        get_instance_from_net_map-Finds net ops riak holds laws home
          (record { pmap = m; conn = c.conn }) inst.ip port insts inst honest
          (AllHomed-at net holds home c.pmaps j m at_j homed) all ported i_in (refl, l, r) in
      (
        a,
        record c { pmaps = set c.pmaps j k.pmap; conn = k.conn },
        on_cache-some j (get_instance_from_net_map net ops riak inst.ip port) c m (found a) k at_j
            eq,
        owns,
      )

  -- An instance that is created through one cache is found through every cache: PutInstance through
  -- the cache `i` answers OK where the backend took it, the maps of all caches still agree, and
  -- GetInstanceFromNetMap of a port of the instance, through the cache `j`, answers with an
  -- instance whose home has the address. The backend is honest and then returns instances of the IP, the one
  -- that it took among them, with 16-bit ports, the maps of the caches agree before, and the instance
  -- is at its home.
  pub put_instance-FindsThrough :
      (c : MetadataProxy Tree R W) (i j : ℕ) (inst : CachedInstance) (insts : List CachedInstance)
      (port : ℤ)
      → IsHonest net home riak
      → AllHomed net holds home c.pmaps
      → i < length c.pmaps
      → j < length c.pmaps
      → IsAtHome net home inst
      → (riak.put_net_id_map inst.ip inst.lport inst.rport inst.id c.conn).0 ≡ true
      → (riak.get_all_net_id inst.ip
          (riak.put_net_id_map inst.ip inst.lport inst.rport inst.id c.conn).1).0
        ≡ some insts
      → In inst insts
      → AllPorted insts
      → inst.lport ≤ℤ port
      → port ≤ℤ inst.rport
      → (c' : MetadataProxy Tree R W) × (on_cache i (put_instance net ops riak inst) c
          ≡ some (status_ok, c'))
        × AllHomed net holds home c'.pmaps
        × FindsThrough j inst.ip port c'
  put_instance-FindsThrough c i j inst insts port honest homed hi hj at_home taken all i_in ported l
        r =
      let (m, at_i) = get_elem?_in_range c.pmaps i hi in
      let (m', put_eq, m_homed) =
        put_cached_instance-IsHomed net ops holds laws home m inst
          (AllHomed-at net holds home c.pmaps i m at_i homed) at_home in
      let conn = (riak.put_net_id_map inst.ip inst.lport inst.rport inst.id c.conn).1 in
      let k : Cache Tree R = record { pmap = m'; conn = conn } in
      let c' = record c { pmaps = set c.pmaps i m'; conn = conn } in
      let all_homed = AllHomed-set net holds home c.pmaps i m' m_homed homed in
      (
        c',
        on_cache-some i (put_instance net ops riak inst) c m status_ok k at_i (
            put_instance_step net ops riak (record { pmap = m; conn = c.conn }) m' inst put_eq
            ∙ ap (λ b. some (if b then status_ok else internal_server_error, k)) taken),
        all_homed,
        found_through c' j inst insts honest all_homed (omega (arith, length-set c.pmaps i m', hj))
            all ported i_in port l r,
      )
