-- ===== src/Proxy/Cache/Lookups.antt =====
-- The lookups of proxy/cache.go: no panic, and an instance found for an address owns that address.
use cloudlab_k8s.Prelude.{
  ℕ, ◌≡◌, refl, sym, ap, ◌∙◌, ◌≢◌, ◌⊎◌, inl, inr, Bool, Option, none, some, List, [], ◌∷◌, arith,
  String, string_key, lookup, ℤ, suc_ℤ, ◌≤ℤ◌,
}
use cloudlab_k8s.Proxy.Types.{Ip, Net, CachedInstance, status_ok, internal_server_error}
use cloudlab_k8s.Proxy.Run.{◌>>=◌, bind_some}
use cloudlab_k8s.Proxy.Pmap.{PrincipalIndex, IntTree, IsIntTree, Pmap, get_index}
use cloudlab_k8s.Proxy.Pmap.Innermost.{Covers, IsInnermost, get_index-Found}
use cloudlab_k8s.Proxy.Pmap.Homes.{Home, address, IsHomed, IsIndexOf}
use cloudlab_k8s.Proxy.Cache.{
  RiakConn, Cache, Answer, found, failed, finish_id, reload_cache, load_first, second_look,
  instance_of, after_reload, get_instance_from_net_map, get_instance_from_id,
}
use cloudlab_k8s.Proxy.Cache.Reload.{AllAtHome, AllNamed, IsHonest, reload_cache-IsHomed}
use cloudlab_k8s.Proxy.Cache.Looks.{
  instance_of-some, get_instance_hit, get_instance_missed, after_reload_ok, id_hit, load_first_step,
  id_missed,
}

-- An answer for an address: the instance's identity has its home there, and its ports hold the
-- port; or a status that is not OK.
abbrev pub Owns : Net → (String → Option Home) → Ip → ℤ → Answer → Type 0
Owns net home ip port (found inst) =
    (home inst.id.pid ≡ some (net.ip_string ip, inst.lport, inst.rport))
    × (inst.lport ≤ℤ port)
    × (port ≤ℤ inst.rport)
Owns net home ip port (failed status) = status ≢ status_ok

-- An answer for an identity: an instance of that identity at its home, or a status that is not OK.
abbrev pub Names : Net → (String → Option Home) → String → Answer → Type 0
Names net home pid (found inst) = (inst.id.pid ≡ pid) × (home pid ≡ some (address net inst))
Names net home pid (failed status) = status ≢ status_ok

within_ports :
    (net : Net) (ip : String) (x : PrincipalIndex) (a : CachedInstance) (port : ℤ)
    → IsIndexOf net ip x a
    → Covers x port
    → (a.lport ≤ℤ port) × (port ≤ℤ a.rport)
within_ports net ip x a port i c = within (i.pmin_eq) (i.pmax_eq) c
  where
    within :
        x.pmin ≡ a.lport
        → x.pmax ≡ suc_ℤ a.rport
        → Covers x port
        → (a.lport ≤ℤ port) × (port ≤ℤ a.rport)
    within p q c = ground (arith)

get_index-none :
    {Tree : Type 0} (ops : IntTree Tree) (m : Pmap Tree) (ip : String) (port : ℤ)
    → lookup ip m.identities ≡ none
    → get_index ops m ip port ≡ none
unfolding get_index
get_index-none ops m ip port e = rw (e, get_index)

module _ {Tree R : Type 0} (net : Net) (ops : IntTree Tree) (riak : RiakConn R)
    (holds : Tree → PrincipalIndex → Bool) (laws : IsIntTree ops holds)
    (home : String → Option Home) where
  pub index_held :
      (m : Pmap Tree) (ip : String) (port : ℤ) (x : PrincipalIndex)
      → get_index ops m ip port ≡ some x
      → (tree : Tree) × (lookup ip m.identities ≡ some tree)
        × IsInnermost ops holds laws tree port x
  index_held m ip port x e = go (lookup ip m.identities) refl
    where
      go :
          (o : Option Tree)
          → lookup ip m.identities ≡ o
          → (tree : Tree) × (lookup ip m.identities ≡ some tree)
            × IsInnermost ops holds laws tree port x
      go none t = cc (get_index-none ops m ip port t, e)
      go (some tree) t = (tree, t, rw e at (get_index-Found ops holds laws m ip tree port t))

  -- The instance of an index that was found owns the address.
  pub instance_of-Owns :
      (c : Cache Tree R) (ip : Ip) (port : ℤ) (x : PrincipalIndex)
      → IsHomed net holds home c.pmap
      → get_index ops c.pmap (net.ip_string ip) port ≡ some x
      → (a : CachedInstance) × (instance_of net ops riak x c ≡ some (found a, c))
        × Owns net home ip port (found a)
  instance_of-Owns c ip port x h e =
      let (tree, at_ip, innermost) = index_held c.pmap (net.ip_string ip) port x e in
      let (a, cached, i) = h.indexed (net.ip_string ip) tree x at_ip innermost.held in
      let home_eq = h.cached x.p a cached in
      (
        a,
        instance_of-some net ops riak c x a cached,
        (
          ap home home_eq.0 ∙ home_eq.1 ∙ ap (λ s. some (s, a.lport, a.rport)) i.ip_eq,
          (within_ports net (net.ip_string ip) x a port i innermost.covers).0,
          (within_ports net (net.ip_string ip) x a port i innermost.covers).1,
        ),
      )

  -- What a lookup leaves: an answer with its property, and a cache whose maps agree.
  abbrev pub Answers : (Answer → Type 0) → Option (Answer × Cache Tree R) → Type 0
  Answers P none = ⊥
  Answers P (some (answer, c)) = P answer × IsHomed net holds home c.pmap

  after_reload-Owns :
      (c : Cache Tree R) (ip : Ip) (port : ℤ) (status : ℕ)
      → IsHomed net holds home c.pmap
      → (status ≡ status_ok) ⊎ (status ≡ internal_server_error)
      → Answers (Owns net home ip port) (after_reload net ops riak (net.ip_string ip) port status c)
  after_reload-Owns c ip port status h (inr e) =
      rw e (unfold after_reload in ((λ k. omega arith), h))
  after_reload-Owns c ip port status h (inl e) =
      rw e (go (get_index ops c.pmap (net.ip_string ip) port) refl)
    where
      go :
          (o : Option PrincipalIndex)
          → get_index ops c.pmap (net.ip_string ip) port ≡ o
          → Answers
              (Owns net home ip port)
              (after_reload net ops riak (net.ip_string ip) port status_ok c)
      go none q =
          rw (after_reload_ok net ops riak c (net.ip_string ip) port none q)
            (unfold second_look in ((λ k. omega arith), h))
      go (some x) q =
          let (answer, eq, owns) = instance_of-Owns c ip port x h q in
          rw (after_reload_ok net ops riak c (net.ip_string ip) port (some x) q)
            (unfold second_look in rw eq (owns, h))

  -- GetInstanceFromNetMap, with an honest backend and maps that agree, does not panic ("result
  -- should never be null"), keeps the maps in agreement, and what it finds for an address has its
  -- home at that IP, with the port among its ports.
  pub get_instance_from_net_map-Owns :
      (c : Cache Tree R) (ip : Ip) (port : ℤ)
      → IsHonest net home riak
      → IsHomed net holds home c.pmap
      → Answers (Owns net home ip port) (get_instance_from_net_map net ops riak ip port c)
  get_instance_from_net_map-Owns c ip port honest h =
      go (get_index ops c.pmap (net.ip_string ip) port) refl
    where
      go :
          (o : Option PrincipalIndex)
          → get_index ops c.pmap (net.ip_string ip) port ≡ o
          → Answers (Owns net home ip port) (get_instance_from_net_map net ops riak ip port c)
      go none q =
          let (status, c', eq, ch, cases) =
            reload_cache-IsHomed net ops riak holds laws home ip c honest h in
          rw
            (
              get_instance_missed net ops riak c ip port q,
              bind_some (reload_cache net ops riak ip)
                  (after_reload net ops riak (net.ip_string ip) port) c c' status eq,
            )
            (after_reload-Owns c' ip port status ch cases)
      go (some x) q =
          let (answer, eq, owns) = instance_of-Owns c ip port x h q in
          rw (get_instance_hit net ops riak c ip port x q, eq) (owns, h)

  finish_id-Names :
      (c : Cache Tree R) (pid : String) (inst : CachedInstance) (status : ℕ)
      → IsHomed net holds home c.pmap
      → Names net home pid (found inst)
      → (status ≡ status_ok) ⊎ (status ≡ internal_server_error)
      → Answers (Names net home pid) (finish_id (some inst, status) c)
  finish_id-Names c pid inst status h n (inl e) = rw e (n, h)
  finish_id-Names c pid inst status h n (inr e) = rw e ((λ k. omega arith), h)

  load_first-Names :
      (c : Cache Tree R) (pid : String) (o : Option (List CachedInstance))
      → IsHonest net home riak
      → IsHomed net holds home c.pmap
      → ((insts : List CachedInstance)
          → o ≡ some insts
          → AllAtHome net home insts × AllNamed pid insts)
      → Answers (Names net home pid) ((load_first net ops riak o >>= finish_id) c)
  load_first-Names c pid none honest h a = unfold load_first in ((λ k. omega arith), h)
  load_first-Names c pid (some []) honest h a = unfold load_first in ((λ k. omega arith), h)
  load_first-Names c pid (some (inst ∷ rest)) honest h a =
      let (status, c', eq, ch, cases) =
        reload_cache-IsHomed net ops riak holds laws home inst.ip c honest h in
      let (homes, names) = a (inst ∷ rest) refl in
      rw (load_first_step net ops riak c c' inst rest status eq) (
        finish_id-Names c' pid inst status ch (names.0, ap home (sym names.0) ∙ homes.0.homed)
          cases)

  -- GetInstanceFromID, with an honest backend and maps that agree, does not panic, keeps the maps in
  -- agreement, and what it finds for an identity is an instance of it, at the identity's home.
  pub get_instance_from_id-Names :
      (c : Cache Tree R) (pid : String)
      → IsHonest net home riak
      → IsHomed net holds home c.pmap
      → Answers (Names net home pid) (get_instance_from_id net ops riak pid c)
  get_instance_from_id-Names c pid honest h = go (lookup pid c.pmap.pid_map) refl
    where
      go :
          (o : Option CachedInstance)
          → lookup pid c.pmap.pid_map ≡ o
          → Answers (Names net home pid) (get_instance_from_id net ops riak pid c)
      go none q = rw (id_missed net ops riak c pid (riak.search_id_net pid c.conn).0 q refl) (
          load_first-Names (record c { conn = (riak.search_id_net pid c.conn).1 }) pid
            (riak.search_id_net pid c.conn).0 honest h
            (λ insts e.
              (honest.search_home pid c.conn insts e, honest.search_named pid c.conn insts e)))
      go (some inst) q = rw (id_hit net ops riak c pid inst q) (h.cached pid inst q, h)
