-- ===== src/Proxy/Cache/Complete.antt =====
-- That a lookup finds what the backend knows: GetInstanceFromNetMap of an address whose instance is
-- not cached yet loads it.
use cloudlab_k8s.Prelude.{
  some-eq, ◌≡◌, refl, sym, ap, ◌∙◌, ◌⊎◌, inl, inr, Bool, Option, none, some, List, [], ◌∷◌, String,
  string_key, ℤ,
}
use cloudlab_k8s.Proxy.Types.{Ip, Net, CachedInstance, status_ok}
use cloudlab_k8s.Proxy.Run.{pure, bind_some}
use cloudlab_k8s.Proxy.Pmap.{
  PrincipalIndex, IntTree, IsIntTree, In, Pmap, get_index, put_cached_instance,
}
use cloudlab_k8s.Proxy.Pmap.Innermost.{Found, get_index-Found}
use cloudlab_k8s.Proxy.Pmap.Homes.{
  Home, IsHomed, IsAtHome, put_result, put_some, put_cached_instance-IsHomed,
}
use cloudlab_k8s.Proxy.Cache.{
  RiakConn, Cache, found, put_each, load_all, reload_cache, second_look, after_reload,
  get_instance_from_net_map,
}
use cloudlab_k8s.Proxy.Cache.Reload.{AllAtHome, IsHonest, pmap_step}
use cloudlab_k8s.Proxy.Cache.Lookups.{Owns, instance_of-Owns}
use cloudlab_k8s.Proxy.Cache.Looks.{get_instance_hit, get_instance_missed, after_reload_ok}
use cloudlab_k8s.Proxy.Cache.Serves.{AllPorted, ServesAt, Serves, added, kept}

module _ {Tree R : Type 0} (net : Net) (ops : IntTree Tree) (riak : RiakConn R)
    (holds : Tree → PrincipalIndex → Bool) (laws : IsIntTree ops holds)
    (home : String → Option Home) where
  -- What a put of an instance at home comes to.
  put_step :
      (m : Pmap Tree) (inst : CachedInstance) (a : IsAtHome net home inst)
      → IsHomed net holds home m
      → (put_cached_instance net ops m inst
          ≡ some (put_result net ops holds laws home m inst a.numbered.0))
        × IsHomed net holds home (put_result net ops holds laws home m inst a.numbered.0)
  put_step m inst a h =
      let (m', e, mh) = put_cached_instance-IsHomed net ops holds laws home m inst h a in
      let put_eq = put_some net ops holds laws home m inst a.numbered.0 a.numbered.1 in
      (put_eq, rw (some-eq (sym e ∙ put_eq)) at mh)

  -- The loop of reloadCache keeps what is served, and serves what its instances serve.
  put_each-Serves :
      (insts : List CachedInstance) (c : Cache Tree R) (ip : String) (port : ℤ)
      → AllAtHome net home insts
      → AllPorted insts
      → IsHomed net holds home c.pmap
      → Serves net ops holds laws home c.pmap ip port
        ⊎ ((inst : CachedInstance) × In inst insts × ServesAt net ip port inst)
      → (c' : Cache Tree R) × (put_each net ops riak insts c ≡ some (tt, c'))
        × IsHomed net holds home c'.pmap
        × Serves net ops holds laws home c'.pmap ip port
  unfolding put_each
  put_each-Serves [] c ip port a p h (inl s) = (c, refl, h, s)
  put_each-Serves [] c ip port a p h (inr (inst, i, s)) = absurd i
  put_each-Serves (first ∷ insts) c ip port a p h s =
      let (put_eq, mh) = put_step c.pmap first a.0 h in
      let m = put_result net ops holds laws home c.pmap first a.0.numbered.0 in
      let (c', rest_eq, ch, cs) =
        put_each-Serves insts (record c { pmap = m }) ip port a.1 p.1 mh
          (elim s [
            | inl before ↦ inl (
                kept net ops holds laws home c.pmap first a.0.numbered.0 ip port a.0.numbered.1 p.0
                  before)
            | inr (inst, inl e, at_port) ↦ inl (
                added net ops holds laws home c.pmap first a.0.numbered.0 ip port a.0.numbered.1 p.0
                  (rw e at at_port))
            | inr (inst, inr later, at_port) ↦ inr (inst, later, at_port)
          ]) in
      (c', pmap_step net ops riak first insts c m put_eq ∙ rest_eq, ch, cs)

  reload_cache-Serves :
      (ip : Ip) (c : Cache Tree R) (s : String) (port : ℤ) (insts : List CachedInstance)
      (inst : CachedInstance)
      → IsHonest net home riak
      → IsHomed net holds home c.pmap
      → (riak.get_all_net_id ip c.conn).0 ≡ some insts
      → AllPorted insts
      → In inst insts
      → ServesAt net s port inst
      → (c' : Cache Tree R) × (reload_cache net ops riak ip c ≡ some (status_ok, c'))
        × IsHomed net holds home c'.pmap
        × Serves net ops holds laws home c'.pmap s port
  unfolding reload_cache load_all
  reload_cache-Serves ip c s port insts inst honest h e p i at_port =
      let after = record c { conn = (riak.get_all_net_id ip c.conn).1 } in
      let (c', eq, ch, cs) =
        put_each-Serves insts after s port (honest.all_home ip c.conn insts e) p h
          (inr (inst, i, at_port)) in
      (
        c',
        ap (λ o. load_all net ops riak o after) e
            ∙ bind_some (put_each net ops riak insts) (λ _. pure status_ok) after c' tt eq,
        ch,
        cs,
      )

  -- What GetInstanceFromNetMap finds: an instance that owns the address.
  abbrev pub Finds : Ip → ℤ → Cache Tree R → Type 0
  Finds ip port c =
      (a : CachedInstance) × (c' : Cache Tree R) × (get_instance_from_net_map net ops riak ip port c
        ≡ some (found a, c'))
      × Owns net home ip port (found a)

  served_is_found :
      (c : Cache Tree R) (ip : Ip) (port : ℤ)
      → IsHomed net holds home c.pmap
      → Serves net ops holds laws home c.pmap (net.ip_string ip) port
      → (a : CachedInstance) × (after_reload net ops riak (net.ip_string ip) port status_ok c
          ≡ some (found a, c))
        × Owns net home ip port (found a)
  served_is_found c ip port h s =
      go (get_index ops c.pmap (net.ip_string ip) port) refl
        (get_index-Found ops holds laws c.pmap (net.ip_string ip) s.tree port s.at_ip)
    where
      go :
          (o : Option PrincipalIndex)
          → get_index ops c.pmap (net.ip_string ip) port ≡ o
          → Found ops holds laws s.tree port (get_index ops c.pmap (net.ip_string ip) port)
          → (a : CachedInstance) × (after_reload net ops riak (net.ip_string ip) port status_ok c
              ≡ some (found a, c))
            × Owns net home ip port (found a)
      go none q f = absurd ((rw q at f) s.serves.x s.serves.held s.serves.covers)
      go (some x) q f =
          let (a, eq, owns) = instance_of-Owns net ops riak holds laws home c ip port x h q in
          (
            a,
            after_reload_ok net ops riak c (net.ip_string ip) port (some x) q
                ∙ (unfold second_look in eq),
            owns,
          )

  -- An address that an instance of the backend serves is found, whether the cache has it or loads it:
  -- GetInstanceFromNetMap answers with an instance whose home has that IP and port. The backend is
  -- honest and returns the IP's instances, the maps of the cache agree, and ports are 16-bit numbers.
  pub get_instance_from_net_map-Finds :
      (c : Cache Tree R) (ip : Ip) (port : ℤ) (insts : List CachedInstance) (inst : CachedInstance)
      → IsHonest net home riak
      → IsHomed net holds home c.pmap
      → (riak.get_all_net_id ip c.conn).0 ≡ some insts
      → AllPorted insts
      → In inst insts
      → ServesAt net (net.ip_string ip) port inst
      → Finds ip port c
  get_instance_from_net_map-Finds c ip port insts inst honest h e p i at_port =
      go (get_index ops c.pmap (net.ip_string ip) port) refl
    where
      go :
          (o : Option PrincipalIndex)
          → get_index ops c.pmap (net.ip_string ip) port ≡ o
          → Finds ip port c
      go (some x) q =
          let (a, eq, owns) = instance_of-Owns net ops riak holds laws home c ip port x h q in
          (a, c, get_instance_hit net ops riak c ip port x q ∙ eq, owns)
      go none q =
          let (c', eq, ch, cs) =
            reload_cache-Serves ip c (net.ip_string ip) port insts inst honest h e p i at_port in
          let (a, found_eq, owns) = served_is_found c' ip port ch cs in
          (
            a,
            c',
            get_instance_missed net ops riak c ip port q
                ∙ bind_some (reload_cache net ops riak ip)
                    (after_reload net ops riak (net.ip_string ip) port) c c' status_ok eq
                ∙ found_eq,
            owns,
          )
