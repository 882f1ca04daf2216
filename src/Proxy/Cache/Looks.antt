-- ===== src/Proxy/Cache/Looks.antt =====
-- The steps of the lookups of proxy/cache.go, by what the Pmap and the backend say.
use cloudlab_k8s.Prelude.{
  ℕ, ◌≡◌, refl, ap, ◌∙◌, Option, none, some, List, ◌∷◌, String, string_key, lookup, ℤ,
}
use cloudlab_k8s.Proxy.Types.{Ip, Net, CachedInstance, status_ok}
use cloudlab_k8s.Proxy.Run.{pure, ◌>>=◌, bind_some}
use cloudlab_k8s.Proxy.Pmap.{PrincipalIndex, IntTree, get_index, get_cached_instance}
use cloudlab_k8s.Proxy.Cache.{
  RiakConn, Cache, found, copy, finish_id, reload_cache, reload_uuid, load_first, first_look,
  second_look, cached_or_loaded, instance_of, after_reload, get_instance_from_net_map,
  get_instance_from_id,
}

pub instance_of-some :
    {Tree R : Type 0} (net : Net) (ops : IntTree Tree) (riak : RiakConn R) (c : Cache Tree R)
    (x : PrincipalIndex) (a : CachedInstance)
    → lookup x.p c.pmap.pid_map ≡ some a
    → instance_of net ops riak x c ≡ some (found a, c)
unfolding instance_of get_cached_instance copy
instance_of-some net ops riak c x a e = rw (e, instance_of)

-- The steps of the lookups, by what the Pmap and the backend say.
module _ {Tree R : Type 0} (net : Net) (ops : IntTree Tree) (riak : RiakConn R) where
  pub get_instance_hit :
      (c : Cache Tree R) (ip : Ip) (port : ℤ) (x : PrincipalIndex)
      → get_index ops c.pmap (net.ip_string ip) port ≡ some x
      → get_instance_from_net_map net ops riak ip port c ≡ instance_of net ops riak x c
  unfolding get_instance_from_net_map
  get_instance_hit c ip port x q =
      ap (λ o. first_look net ops riak ip port o c) q ∙ (unfold first_look in refl)

  pub get_instance_missed :
      (c : Cache Tree R) (ip : Ip) (port : ℤ)
      → get_index ops c.pmap (net.ip_string ip) port ≡ none
      → get_instance_from_net_map net ops riak ip port c
        ≡ (reload_cache net ops riak ip >>= after_reload net ops riak (net.ip_string ip) port) c
  unfolding get_instance_from_net_map
  get_instance_missed c ip port q =
      ap (λ o. first_look net ops riak ip port o c) q ∙ (unfold first_look in refl)

  pub after_reload_ok :
      (c : Cache Tree R) (ip : String) (port : ℤ) (o : Option PrincipalIndex)
      → get_index ops c.pmap ip port ≡ o
      → after_reload net ops riak ip port status_ok c ≡ second_look net ops riak o c
  unfolding after_reload
  after_reload_ok c ip port o q = ap (λ o. second_look net ops riak o c) q

  pub id_hit :
      (c : Cache Tree R) (pid : String) (inst : CachedInstance)
      → lookup pid c.pmap.pid_map ≡ some inst
      → get_instance_from_id net ops riak pid c ≡ some (found inst, c)
  unfolding get_instance_from_id get_cached_instance
  id_hit c pid inst q =
      ap (λ o. cached_or_loaded net ops riak pid o c) q ∙ (unfold cached_or_loaded in refl)

  pub load_first_step :
      (c c' : Cache Tree R) (inst : CachedInstance) (rest : List CachedInstance) (status : ℕ)
      → reload_cache net ops riak inst.ip c ≡ some (status, c')
      → (load_first net ops riak (some (inst ∷ rest)) >>= finish_id) c
        ≡ finish_id (some inst, status) c'
  unfolding load_first
  load_first_step c c' inst rest status e =
      bind_some (load_first net ops riak (some (inst ∷ rest))) finish_id c c' (some inst, status)
        (bind_some (reload_cache net ops riak inst.ip) (λ s. pure (some inst, s)) c c' status e)

  pub id_missed :
      (c : Cache Tree R) (pid : String) (o : Option (List CachedInstance))
      → lookup pid c.pmap.pid_map ≡ none
      → (riak.search_id_net pid c.conn).0 ≡ o
      → get_instance_from_id net ops riak pid c
        ≡ (load_first net ops riak o >>= finish_id)
            (record c { conn = (riak.search_id_net pid c.conn).1 })
  unfolding get_instance_from_id get_cached_instance reload_uuid
  id_missed c pid o q r =
      ap (λ o. cached_or_loaded net ops riak pid o c) q
      ∙ (unfold cached_or_loaded in
          ap
            (λ o.
              (load_first net ops riak o >>= finish_id)
                (record c { conn = (riak.search_id_net pid c.conn).1 }))
            r)
