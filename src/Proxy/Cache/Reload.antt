-- ===== src/Proxy/Cache/Reload.antt =====
-- reloadCache of proxy/cache.go: no panic, and the Pmap stays in agreement, where the backend only
-- returns instances at their homes.
use cloudlab_k8s.Prelude.{
  ℕ, ◌≡◌, refl, ◌∙◌, ◌⊎◌, inl, inr, Bool, Option, none, some, List, [], ◌∷◌, String,
}
use cloudlab_k8s.Proxy.Types.{Ip, Net, CachedInstance, status_ok, internal_server_error}
use cloudlab_k8s.Proxy.Run.{pure, bind_some}
use cloudlab_k8s.Proxy.Pmap.{PrincipalIndex, IntTree, IsIntTree, Pmap, put_cached_instance}
use cloudlab_k8s.Proxy.Pmap.Homes.{Home, IsHomed, IsAtHome, put_cached_instance-IsHomed}
use cloudlab_k8s.Proxy.Cache.{
  RiakConn, Cache, on_pmap, on_pmap-some, put_each, load_all, reload_cache,
}

abbrev pub AllAtHome : Net → (String → Option Home) → List CachedInstance → Type 0
AllAtHome net home [] = Unit
AllAtHome net home (inst ∷ insts) = IsAtHome net home inst × AllAtHome net home insts

abbrev pub AllNamed : String → List CachedInstance → Type 0
AllNamed uuid [] = Unit
AllNamed uuid (inst ∷ insts) = (inst.id.pid ≡ uuid) × AllNamed uuid insts

-- What the cache relies on: whatever its state, the backend only returns instances at their homes,
-- and a search for an identity only instances of that identity.
pub record IsHonest {R : Type 0} (net : Net) (home : String → Option Home) (riak : RiakConn R)
    : Type 0 where
  pub all_home :
      (ip : Ip) (r : R) (insts : List CachedInstance)
      → (riak.get_all_net_id ip r).0 ≡ some insts
      → AllAtHome net home insts
  pub search_home :
      (uuid : String) (r : R) (insts : List CachedInstance)
      → (riak.search_id_net uuid r).0 ≡ some insts
      → AllAtHome net home insts
  pub search_named :
      (uuid : String) (r : R) (insts : List CachedInstance)
      → (riak.search_id_net uuid r).0 ≡ some insts
      → AllNamed uuid insts

pub pmap_step :
    {Tree R : Type 0} (net : Net) (ops : IntTree Tree) (riak : RiakConn R) (inst : CachedInstance)
    (insts : List CachedInstance) (c : Cache Tree R) (m : Pmap Tree)
    → put_cached_instance net ops c.pmap inst ≡ some m
    → put_each net ops riak (inst ∷ insts) c ≡ put_each net ops riak insts (record c { pmap = m })
unfolding put_each
pmap_step net ops riak inst insts c m e =
    bind_some (on_pmap (λ p. put_cached_instance net ops p inst)) (λ _. put_each net ops riak insts)
      c (record c { pmap = m }) tt (on_pmap-some (λ p. put_cached_instance net ops p inst) c m e)

module _ {Tree R : Type 0} (net : Net) (ops : IntTree Tree) (riak : RiakConn R)
    (holds : Tree → PrincipalIndex → Bool) (laws : IsIntTree ops holds)
    (home : String → Option Home) where
  put_each-IsHomed :
      (insts : List CachedInstance) (c : Cache Tree R)
      → AllAtHome net home insts
      → IsHomed net holds home c.pmap
      → (c' : Cache Tree R) × (put_each net ops riak insts c ≡ some (tt, c'))
        × IsHomed net holds home c'.pmap
  unfolding put_each
  put_each-IsHomed [] c a h = (c, refl, h)
  put_each-IsHomed (inst ∷ insts) c a h =
      let (m, put_eq, mh) = put_cached_instance-IsHomed net ops holds laws home c.pmap inst h a.0 in
      let (c', rest_eq, ch) = put_each-IsHomed insts (record c { pmap = m }) a.1 mh in
      (c', pmap_step net ops riak inst insts c m put_eq ∙ rest_eq, ch)

  pub reload_cache-IsHomed :
      (ip : Ip) (c : Cache Tree R)
      → IsHonest net home riak
      → IsHomed net holds home c.pmap
      → (status : ℕ) × (c' : Cache Tree R) × (reload_cache net ops riak ip c ≡ some (status, c'))
        × IsHomed net holds home c'.pmap
        × ((status ≡ status_ok) ⊎ (status ≡ internal_server_error))
  unfolding reload_cache load_all
  reload_cache-IsHomed ip c honest h =
      go (riak.get_all_net_id ip c.conn).0 (honest.all_home ip c.conn)
    where
      after : Cache Tree R
      after = record c { conn = (riak.get_all_net_id ip c.conn).1 }

      go :
          (o : Option (List CachedInstance))
          → ((insts : List CachedInstance) → o ≡ some insts → AllAtHome net home insts)
          → (status : ℕ) × (c' : Cache Tree R) × (load_all net ops riak o after ≡ some (status, c'))
            × IsHomed net holds home c'.pmap
            × ((status ≡ status_ok) ⊎ (status ≡ internal_server_error))
      go none e = (internal_server_error, after, refl, h, inr refl)
      go (some insts) e =
          let (c', eq, ch) = put_each-IsHomed insts after (e insts refl) h in
          (
            status_ok,
            c',
            bind_some (put_each net ops riak insts) (λ _. pure status_ok) after c' tt eq,
            ch,
            inl refl,
          )
