-- ===== src/Proxy/Cache/Misplaced.antt =====
-- DelInstance of proxy/cache.go with an address that is not the identity's.
use cloudlab_k8s.Prelude.{
  some-eq, ℕ, ◌≡◌, ◌≢◌, refl, sym, ap, ◌∙◌, Bool, true, false, Option, none, some, String,
  string_key, ◌==◌, beq_refl, lookup, insert, erase, lookup-insert, lookup-erase, ℤ, suc_ℤ,
}
use text.Mathlib.TextEquality.{eq_iff}
use cloudlab_k8s.Proxy.Types.{Ip, Net}
use cloudlab_k8s.Proxy.Run.{pure, deref, ◌>>=◌, bind_some, bind_none}
use cloudlab_k8s.Proxy.Pmap.{
  Index, PrincipalIndex, IntTree, Pmap, get_index, get_cached_instance, compute_id,
  del_cached_instance_alt, delete_principal,
}
use cloudlab_k8s.Proxy.Cache.{
  RiakConn, Cache, Answer, found, instance_of, copy, get_instance_from_net_map, del_instance,
}
use cloudlab_k8s.Proxy.Cache.Looks.{get_instance_hit}
use cloudlab_k8s.Proxy.Cache.Writes.{del_instance_step, del_instance_panics}

module _ {Tree R : Type 0} (net : Net) (ops : IntTree Tree) (riak : RiakConn R) where
  -- DeletePrincipal leaves the trees of other addresses.
  other_tree :
      (m p : Pmap Tree) (s j : String) (lport rport : ℤ) (error : Option String)
      → s ≢ j
      → delete_principal net ops m s lport rport ≡ some (p, error)
      → lookup j p.identities ≡ lookup j m.identities
  unfolding delete_principal
  other_tree m p s j lport rport error ne e =
      go (lookup s m.identities) (compute_id net s lport (suc_ℤ rport)) e
    where
      differs : (b : Bool) → (s == j) ≡ b → (s == j) ≡ false
      differs true q = absurd (ne ((eq_iff s j).0 q))
      differs false q = q

      go :
          (o : Option Tree) (n : Option ℕ)
          → (elim o as (λ _. Option (Pmap Tree × Option String)) [
            | none ↦ some (m, some "not found")
            | some tree ↦ elim n [
              | none ↦ none
              | some id ↦
                  let (tree', error) =
                    ops.tree_delete (record { pmin = lport; pmax = suc_ℤ rport; id = id }) tree in
                  some (record m { identities = insert s tree' m.identities }, error)
            ]
          ])
            ≡ some (p, error)
          → lookup j p.identities ≡ lookup j m.identities
      go none n e = ap (λ r. lookup j r.0.identities) (sym (some-eq e))
      go (some tree) none e = cc
      go (some tree) (some id) e =
          let d : Index = record { pmin = lport; pmax = suc_ℤ rport; id = id } in
          ap (λ r. lookup j r.0.identities) (sym (some-eq e))
          ∙ lookup-insert s j (ops.tree_delete d tree).0 m.identities
          ∙ (rw (differs (s == j) refl))

  -- The index found for an address, after its identity was deleted under another address.
  index_kept :
      (m m' : Pmap Tree) (ip other : Ip) (port lport rport : ℤ) (pid : String)
      → net.ip_string other ≢ net.ip_string ip
      → del_cached_instance_alt net ops m other lport rport pid ≡ some m'
      → (get_index ops m' (net.ip_string ip) port ≡ get_index ops m (net.ip_string ip) port)
        × (lookup pid m'.pid_map ≡ none)
  unfolding del_cached_instance_alt
  index_kept m m' ip other port lport rport pid ne e =
      go (delete_principal net ops m (net.ip_string other) lport rport) refl e
    where
      same_index :
          (p : Pmap Tree)
          → lookup (net.ip_string ip) p.identities ≡ lookup (net.ip_string ip) m.identities
          → get_index ops (record p { pid_map = erase pid p.pid_map }) (net.ip_string ip) port
            ≡ get_index ops m (net.ip_string ip) port
      same_index p q = unfold get_index in rw (q, get_index)

      go :
          (o : Option (Pmap Tree × Option String))
          → delete_principal net ops m (net.ip_string other) lport rport ≡ o
          → (elim o as (λ _. Option (Pmap Tree)) [
            | none ↦ none
            | some (p, error) ↦ some (record p { pid_map = erase pid p.pid_map })
          ])
            ≡ some m'
          → (get_index ops m' (net.ip_string ip) port ≡ get_index ops m (net.ip_string ip) port)
            × (lookup pid m'.pid_map ≡ none)
      go none q e = cc
      go (some (p, error)) q e = rw (← some-eq e) (
        same_index p
            (other_tree m p (net.ip_string other) (net.ip_string ip) lport rport error ne q),
        lookup-erase pid pid p.pid_map ∙ rw (beq_refl pid),
      )

  instance_of-none :
      (c : Cache Tree R) (x : PrincipalIndex)
      → lookup x.p c.pmap.pid_map ≡ none
      → instance_of net ops riak x c ≡ none
  unfolding instance_of get_cached_instance
  instance_of-none c x e =
      ap {B = Option (Answer × Cache Tree R)}
        (λ o. (deref o >>= λ result. pure (found (copy result))) c) e

  -- DelInstance of the identity of an indexed address with the address of some other IP leaves the
  -- index without its instance: the next GetInstanceFromNetMap of the indexed address panics, if
  -- DelInstance did not.
  pub del_instance-other_address :
      (c : Cache Tree R) (ip other : Ip) (port lport rport : ℤ) (x : PrincipalIndex)
      → get_index ops c.pmap (net.ip_string ip) port ≡ some x
      → net.ip_string other ≢ net.ip_string ip
      → (del_instance net ops riak other lport rport x.p >>= λ _.
            get_instance_from_net_map net ops riak ip port)
          c
        ≡ none
  del_instance-other_address c ip other port lport rport x e ne =
      go (del_cached_instance_alt net ops c.pmap other lport rport x.p) refl
    where
      go :
          (o : Option (Pmap Tree))
          → del_cached_instance_alt net ops c.pmap other lport rport x.p ≡ o
          → (del_instance net ops riak other lport rport x.p >>= λ _.
                get_instance_from_net_map net ops riak ip port)
              c
            ≡ none
      go none q =
          bind_none (del_instance net ops riak other lport rport x.p)
            (λ _. get_instance_from_net_map net ops riak ip port) c
            (del_instance_panics net ops riak c other lport rport x.p q)
      go (some m) q =
          let c' : Cache Tree R = record {
            pmap = m;
            conn = (riak.del_net_id_map other lport rport c.conn).1;
          } in
          let kept = index_kept c.pmap m ip other port lport rport x.p ne q in
          bind_some (del_instance net ops riak other lport rport x.p)
            (λ _. get_instance_from_net_map net ops riak ip port) c c' _
            (del_instance_step net ops riak c m other lport rport x.p q)
          ∙ get_instance_hit net ops riak c' ip port x (kept.0 ∙ e)
          ∙ instance_of-none c' x kept.1
