-- ===== src/Proxy/Pmap/Deletion.antt =====
-- DelCachedInstanceAlt of proxy/pmap.go, where the identity is the one of the address.
use cloudlab_k8s.Prelude.{
  some-eq, ℕ, ◌≡◌, refl, sym, ◌∙◌, ap, inl, inr, Bool, Bool-cases, true, false, Option, none, some,
  arith, String, string_key, ◌==◌, beq_refl, Map, lookup, insert, erase, lookup-insert,
  lookup-erase, nat_beq_iff, ℤ, suc_ℤ, ◌≤ℤ◌,
}
use text.Mathlib.TextEquality.{eq_iff}
use cloudlab_k8s.Proxy.Types.{Ip, Net, CachedInstance}
use cloudlab_k8s.Proxy.Pmap.{
  Index, PrincipalIndex, IntTree, IsIntTree, Pmap, eq_ℤ, same_key, compute_id, delete_principal,
  del_cached_instance_alt,
}
use cloudlab_k8s.Proxy.Pmap.Homes.{Home, address, IsHomed, IsIndexOf, same_address}

eq_ℤ-refl : (a : ℤ) → eq_ℤ a a ≡ true
eq_ℤ-refl a = ground arith

same_key_of_eq : (a b : Index) → a.pmin ≡ b.pmin → a.id ≡ b.id → same_key a b ≡ true
same_key_of_eq a b p q = rw (p, q, eq_ℤ-refl b.pmin) ((nat_beq_iff b.id b.id).1 refl)

module _ {Tree : Type 0} (net : Net) (ops : IntTree Tree) (holds : Tree → PrincipalIndex → Bool)
    (laws : IsIntTree ops holds) (home : String → Option Home) where
  -- The trees after DeletePrincipal.
  abbrev pruned : Map String Tree → String → Index → Map String Tree
  pruned trees ip d = elim (lookup ip trees) [
    | none ↦ trees
    | some tree ↦ insert ip (ops.tree_delete d tree).0 trees
  ]

  abbrev del_result : Pmap Tree → String → Index → String → Pmap Tree
  del_result m ip d pid = record m {
    identities = pruned m.identities ip d;
    pid_map = erase pid m.pid_map;
  }

  module _ (m : Pmap Tree) (ip : Ip) (lport rport : ℤ) (pid : String) (id : ℕ)
      (numbered : compute_id net (net.ip_string ip) lport (suc_ℤ rport) ≡ some id) where
    abbrev range : Index
    range = record { pmin = lport; pmax = suc_ℤ rport; id = id }

    del_some :
        del_cached_instance_alt net ops m ip lport rport pid
        ≡ some (del_result m (net.ip_string ip) range pid)
    unfolding del_cached_instance_alt delete_principal
    del_some = ground (arith, numbered)

    module _ (h : IsHomed net holds home m)
        (homed : home pid ≡ some (net.ip_string ip, lport, rport))
        (ordered : lport ≤ℤ suc_ℤ rport) where
      -- An index that is left was there before, and is not the deleted one.
      held_before :
          (j : String) (tree : Tree) (x : PrincipalIndex)
          → lookup j (pruned m.identities (net.ip_string ip) range) ≡ some tree
          → holds tree x ≡ true
          → (t : Tree) × (lookup j m.identities ≡ some t)
            × (holds t x ≡ true)
            × (j ≡ net.ip_string ip → same_key range x.index ≡ false)
      held_before j tree x e k = go (lookup ipstr m.identities) refl e
        where
          ipstr : String
          ipstr = net.ip_string ip

          Before : Type 0
          Before =
              (t : Tree) × (lookup j m.identities ≡ some t)
              × (holds t x ≡ true)
              × (j ≡ net.ip_string ip → same_key range x.index ≡ false)

          deleted :
              (t : Tree)
              → lookup (net.ip_string ip) m.identities ≡ some t
              → j ≡ net.ip_string ip
              → holds (ops.tree_delete range t).0 x ≡ true
              → Before
          deleted t found j_eq held = elim (Bool-cases (same_key range x.index)) [
            | inl same ↦ cc (laws.delete_same range x t ordered same, held)
            | inr differs ↦ (
              t,
              ap (λ i. lookup i m.identities) j_eq ∙ found,
              sym (laws.delete_other range x t differs) ∙ held,
              λ _. differs,
            )
          ]

          go :
              (o : Option Tree)
              → lookup (net.ip_string ip) m.identities ≡ o
              → lookup j (elim o [
                | none ↦ m.identities
                | some t ↦ insert (net.ip_string ip) (ops.tree_delete range t).0 m.identities
              ])
                ≡ some tree
              → Before
          go none missing e =
              (tree, e, k, λ j_eq. cc (ap (λ i. lookup i m.identities) j_eq, missing, e))
          go (some t) found e =
              let split =
                sym (lookup-insert (net.ip_string ip) j (ops.tree_delete range t).0 m.identities)
                ∙ e in
              elim (Bool-cases (net.ip_string ip == j)) [
                | inl same ↦
                    let j_eq = sym ((eq_iff (net.ip_string ip) j).0 same) in
                    deleted t found j_eq (rw (some-eq (rw same at split)) k)
                | inr other ↦ (
                  tree,
                  rw other at split,
                  k,
                  λ j_eq. cc (other, (eq_iff (net.ip_string ip) j).1 (sym j_eq)),
                )
              ]

      -- An index of the identity would be the deleted one.
      other_pid :
          (j : String) (t : Tree) (x : PrincipalIndex)
          → lookup j m.identities ≡ some t
          → holds t x ≡ true
          → (j ≡ net.ip_string ip → same_key range x.index ≡ false)
          → (pid == x.p) ≡ false
      other_pid j t x e k differs = elim (Bool-cases (pid == x.p)) [
        | inr other ↦ other
        | inl same ↦
            let (a, found, i) = h.indexed j t x e k in
            let home_eq = ap home ((eq_iff pid x.p).0 same) ∙ (h.cached x.p a found).1 in
            cc (differs (j_is a i home_eq), key_is a i home_eq)
      ]
        where
          parts :
              (a : CachedInstance)
              → home pid ≡ some (address net a)
              → (net.ip_string a.ip ≡ net.ip_string ip) × (a.lport ≡ lport) × (a.rport ≡ rport)
          parts a q =
              same_address net a (record { ip = ip; lport = lport; rport = rport; id = a.id })
                (home pid) q homed

          j_is :
              (a : CachedInstance)
              → IsIndexOf net j x a
              → home pid ≡ some (address net a)
              → j ≡ net.ip_string ip
          j_is a i q = sym i.ip_eq ∙ (parts a q).0

          key_is :
              (a : CachedInstance)
              → IsIndexOf net j x a
              → home pid ≡ some (address net a)
              → same_key range x.index ≡ true
          key_is a i q =
              let (ip_eq, l_eq, r_eq) = parts a q in
              same_key_of_eq range x.index (sym (i.pmin_eq ∙ l_eq))
                (some-eq (sym numbered ∙ (rw (← j_is a i q, ← l_eq, ← r_eq) i.id_eq)))

      lookup-left :
          (q : String) (o : Option CachedInstance)
          → (pid == q) ≡ false
          → lookup q m.pid_map ≡ o
          → lookup q (erase pid m.pid_map) ≡ o
      lookup-left q o differs e = lookup-erase pid q m.pid_map ∙ rw differs e

      del_result-IsHomed : IsHomed net holds home (del_result m (net.ip_string ip) range pid)
      del_result-IsHomed = record {
        cached = λ q a e. elim (Bool-cases (pid == q)) [
          | inl same ↦ cc (rw same at (sym (lookup-erase pid q m.pid_map) ∙ e))
          | inr other ↦ h.cached q a (rw other at (sym (lookup-erase pid q m.pid_map) ∙ e))
        ];
        indexed = λ j tree x e k.
            let (t, found, held, differs) = held_before j tree x e k in
            let (a, cached, i) = h.indexed j t x found held in
            (a, lookup-left x.p (some a) (other_pid j t x found held differs) cached, i);
      }

  -- No trace of an identity: it is not cached, and no tree has an index of it.
  pub record IsGone (m : Pmap Tree) (pid : String) : Type 0 where
    pub uncached : lookup pid m.pid_map ≡ none
    pub unindexed :
        (j : String) (tree : Tree) (x : PrincipalIndex)
        → lookup j m.identities ≡ some tree
        → holds tree x ≡ true
        → (pid == x.p) ≡ false

  -- DelCachedInstanceAlt with the address of the identity, one that ComputeID takes and whose ports
  -- are in order, does not panic, keeps the two maps in agreement and leaves no trace of the
  -- identity.
  pub del_cached_instance-IsHomed :
      (m : Pmap Tree) (ip : Ip) (lport rport : ℤ) (pid : String) (id : ℕ)
      → IsHomed net holds home m
      → home pid ≡ some (net.ip_string ip, lport, rport)
      → compute_id net (net.ip_string ip) lport (suc_ℤ rport) ≡ some id
      → lport ≤ℤ suc_ℤ rport
      → (m' : Pmap Tree) × (del_cached_instance_alt net ops m ip lport rport pid ≡ some m')
        × IsHomed net holds home m'
        × IsGone m' pid
  del_cached_instance-IsHomed m ip lport rport pid id h homed numbered ordered = (
    del_result m (net.ip_string ip) (range m ip lport rport pid id numbered) pid,
    del_some m ip lport rport pid id numbered,
    del_result-IsHomed m ip lport rport pid id numbered h homed ordered,
    record {
      uncached = lookup-erase pid pid m.pid_map ∙ rw (beq_refl pid) refl;
      unindexed = λ j tree x e k.
          let (t, found, held, differs) =
            held_before m ip lport rport pid id numbered h homed ordered j tree x e k in
          other_pid m ip lport rport pid id numbered h homed ordered j t x found held differs;
    },
  )
