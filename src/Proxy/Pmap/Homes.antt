-- ===== src/Proxy/Pmap/Homes.antt =====
-- The two maps of a Pmap agree where each identity has one address: an invariant of putting and
-- deleting instances, and what a lookup by address then returns.
use cloudlab_k8s.Prelude.{
  some-eq, ℕ, ◌+◌, ◌≡◌, refl, sym, ◌∙◌, ap, ◌⊎◌, inl, inr, Bool, Bool-cases, true, Option, none,
  some, arith, String, string_key, ◌==◌, beq_refl, Map, lookup, insert, lookup-insert, ℤ, suc_ℤ,
  if◌then◌else◌,
}
use text.Mathlib.TextEquality.{eq_iff}
use cloudlab_k8s.Proxy.Types.{Net, CachedInstance}
use cloudlab_k8s.Proxy.Pmap.{
  PrincipalIndex, IntTree, IsIntTree, Pmap, compute_id, tree_at, create_principal_pp,
  put_cached_instance, new_pmap,
}

-- The address of an identity: the text of its IP and its ports.
abbrev pub Home : Type 0
Home = String × ℤ × ℤ

abbrev pub address : Net → CachedInstance → Home
address net inst = (net.ip_string inst.ip, inst.lport, inst.rport)

-- `x` is the index of `inst` in the tree of the address `ip`.
pub record IsIndexOf (net : Net) (ip : String) (x : PrincipalIndex) (inst : CachedInstance)
    : Type 0 where
  pub ip_eq : net.ip_string inst.ip ≡ ip
  pub pmin_eq : x.pmin ≡ inst.lport
  pub pmax_eq : x.pmax ≡ suc_ℤ inst.rport
  pub id_eq : compute_id net ip inst.lport (suc_ℤ inst.rport) ≡ some x.id

-- An instance that sits at the address of its identity, one that ComputeID takes.
pub record IsAtHome (net : Net) (home : String → Option Home) (inst : CachedInstance) : Type 0 where
  pub homed : home inst.id.pid ≡ some (address net inst)
  pub numbered :
      (id : ℕ) × (compute_id net (net.ip_string inst.ip) inst.lport (suc_ℤ inst.rport) ≡ some id)

module _ {Tree : Type 0} (net : Net) (holds : Tree → PrincipalIndex → Bool)
    (home : String → Option Home) where
  -- Every cached instance is at home under its own identity, and every index of every tree belongs
  -- to a cached instance.
  pub record IsHomed (m : Pmap Tree) : Type 0 where
    pub cached :
        (pid : String) (inst : CachedInstance)
        → lookup pid m.pid_map ≡ some inst
        → (inst.id.pid ≡ pid) × (home pid ≡ some (address net inst))
    pub indexed :
        (ip : String) (tree : Tree) (x : PrincipalIndex)
        → lookup ip m.identities ≡ some tree
        → holds tree x ≡ true
        → (inst : CachedInstance) × (lookup x.p m.pid_map ≡ some inst) × IsIndexOf net ip x inst

  pub new-IsHomed : IsHomed new_pmap
  unfolding lookup
  new-IsHomed = record { cached = λ pid inst h. cc; indexed = λ ip tree x h k. cc }

pub same_address :
    (net : Net) (a b : CachedInstance) (h : Option Home)
    → h ≡ some (address net a)
    → h ≡ some (address net b)
    → (net.ip_string a.ip ≡ net.ip_string b.ip) × (a.lport ≡ b.lport) × (a.rport ≡ b.rport)
same_address net a b h p q = ground arith

IsIndexOf-moved :
    (net : Net) (ip : String) (x : PrincipalIndex) (a b : CachedInstance) (h : Option Home)
    → h ≡ some (address net a)
    → h ≡ some (address net b)
    → IsIndexOf net ip x a
    → IsIndexOf net ip x b
IsIndexOf-moved net ip x a b h p q i =
    let e = same_address net a b h p q in
    record {
      ip_eq = sym e.0 ∙ i.ip_eq;
      pmin_eq = i.pmin_eq ∙ e.1;
      pmax_eq = i.pmax_eq ∙ ap suc_ℤ e.2;
      id_eq = rw (← e.1, ← e.2) i.id_eq;
    }

module _ {Tree : Type 0} (net : Net) (ops : IntTree Tree) (holds : Tree → PrincipalIndex → Bool)
    (laws : IsIntTree ops holds) (home : String → Option Home) where
  -- The index that CreatePrincipalPP makes.
  abbrev pub index_of : CachedInstance → ℕ → PrincipalIndex
  index_of inst id = record {
    index = record { pmin = inst.lport; pmax = suc_ℤ inst.rport; id = id };
    p = inst.id.pid;
    pp = inst.id.ppid;
  }

  abbrev pub put_result : Pmap Tree → CachedInstance → ℕ → Pmap Tree
  put_result m inst id =
      let ipstr = net.ip_string inst.ip in
      record {
        counter = m.counter + 1;
        identities =
            insert ipstr (ops.tree_insert (index_of inst id) (tree_at net ops ipstr m.identities))
              m.identities;
        pid_map = insert inst.id.pid inst (insert inst.id.pid inst m.pid_map);
      }

  -- The tree after the put.
  abbrev grown : Pmap Tree → CachedInstance → ℕ → Tree
  grown m inst id =
      ops.tree_insert (index_of inst id) (tree_at net ops (net.ip_string inst.ip) m.identities)

  held_before :
      (m : Pmap Tree) (inst : CachedInstance) (id : ℕ) (x : PrincipalIndex)
      → holds (grown m inst id) x ≡ true
      → (x ≡ index_of inst id)
        ⊎ ((t : Tree) × (lookup (net.ip_string inst.ip) m.identities ≡ some t) × (holds t x ≡ true))
  held_before m inst id x e =
      elim (laws.insert_same (index_of inst id) x
        (tree_at net ops (net.ip_string inst.ip) m.identities) e) [
          | inl new ↦ inl new
          | inr old ↦ held_in (lookup (net.ip_string inst.ip) m.identities) old
        ]
    where
      held_in :
          (o : Option Tree)
          → holds (elim o [ none ↦ ops.empty | some tree ↦ tree ]) x ≡ true
          → (x ≡ index_of inst id) ⊎ ((t : Tree) × (o ≡ some t) × (holds t x ≡ true))
      held_in none k = cc (laws.holds-empty x)
      held_in (some t) k = inr (t, refl, k)

  pub put_some :
      (m : Pmap Tree) (inst : CachedInstance) (id : ℕ)
      → compute_id net (net.ip_string inst.ip) inst.lport (suc_ℤ inst.rport) ≡ some id
      → put_cached_instance net ops m inst ≡ some (put_result m inst id)
  unfolding put_cached_instance create_principal_pp
  put_some m inst id h = ground arith

  lookup-pid_map :
      (m : Pmap Tree) (inst : CachedInstance) (id : ℕ) (pid : String)
      → lookup pid (put_result m inst id).pid_map
        ≡ (if inst.id.pid == pid then some inst else lookup pid m.pid_map)
  lookup-pid_map m inst id pid = ground (
    arith,
    lookup-insert inst.id.pid pid inst (insert inst.id.pid inst m.pid_map),
    lookup-insert inst.id.pid pid inst m.pid_map,
  )

  tree_at-some :
      (ip : String) (tree : Tree) (m : Map String Tree)
      → lookup ip m ≡ some tree
      → tree_at net ops ip m ≡ tree
  tree_at-some ip tree m h = ground arith

  module _ (m : Pmap Tree) (h : IsHomed net holds home m) (inst : CachedInstance) (id : ℕ)
      (homed : home inst.id.pid ≡ some (address net inst))
      (numbered : compute_id net (net.ip_string inst.ip) inst.lport (suc_ℤ inst.rport)
        ≡ some id) where
    -- What was indexed stays so.
    still_indexed :
        (ip : String) (tree : Tree) (x : PrincipalIndex)
        → lookup ip m.identities ≡ some tree
        → holds tree x ≡ true
        → (a : CachedInstance) × (lookup x.p (put_result m inst id).pid_map ≡ some a)
          × IsIndexOf net ip x a
    still_indexed ip tree x t e =
        let (a, found, i) = h.indexed ip tree x t e in
        elim (Bool-cases (inst.id.pid == x.p)) [
          | inl same ↦
              let pid_eq = (eq_iff inst.id.pid x.p).0 same in
              (
                inst,
                lookup-pid_map m inst id x.p ∙ rw same refl,
                IsIndexOf-moved net ip x a inst (home x.p) (h.cached x.p a found).1
                    (rw (← pid_eq) homed) i,
              )
          | inr other ↦ (a, lookup-pid_map m inst id x.p ∙ rw other found, i)
        ]

    newly_indexed :
        (a : CachedInstance) × (lookup inst.id.pid (put_result m inst id).pid_map ≡ some a)
        × IsIndexOf net (net.ip_string inst.ip) (index_of inst id) a
    newly_indexed = (
      inst,
      lookup-pid_map m inst id inst.id.pid ∙ rw (beq_refl inst.id.pid) refl,
      record { ip_eq = refl; pmin_eq = refl; pmax_eq = refl; id_eq = numbered },
    )

    put_cached_lem :
        (pid : String) (a : CachedInstance)
        → lookup pid (put_result m inst id).pid_map ≡ some a
        → (a.id.pid ≡ pid) × (home pid ≡ some (address net a))
    put_cached_lem pid a e = elim (Bool-cases (inst.id.pid == pid)) [
      | inl same ↦
          let pid_eq = (eq_iff inst.id.pid pid).0 same in
          let inst_eq = some-eq (rw same at (sym (lookup-pid_map m inst id pid) ∙ e)) in
          rw (← inst_eq, ← pid_eq) (refl, homed)
      | inr other ↦ h.cached pid a (rw other at (sym (lookup-pid_map m inst id pid) ∙ e))
    ]

    put_indexed_lem :
        (ip : String) (tree : Tree) (x : PrincipalIndex)
        → lookup ip (put_result m inst id).identities ≡ some tree
        → holds tree x ≡ true
        → (a : CachedInstance) × (lookup x.p (put_result m inst id).pid_map ≡ some a)
          × IsIndexOf net ip x a
    put_indexed_lem ip tree x e k =
        let split =
          sym (lookup-insert (net.ip_string inst.ip) ip (grown m inst id) m.identities) ∙ e in
        elim (Bool-cases (net.ip_string inst.ip == ip)) [
          | inl same ↦
              let ip_eq = (eq_iff (net.ip_string inst.ip) ip).0 same in
              let tree_eq = some-eq (rw same at split) in
              elim (held_before m inst id x (rw tree_eq k)) [
                | inl new ↦ rw (new, ← ip_eq) newly_indexed
                | inr (t, found, old) ↦
                    rw (← ip_eq) (still_indexed (net.ip_string inst.ip) t x found old)
              ]
          | inr other ↦ still_indexed ip tree x (rw other at split) k
        ]

    put_result-IsHomed : IsHomed net holds home (put_result m inst id)
    put_result-IsHomed = record { cached = put_cached_lem; indexed = put_indexed_lem }

  -- PutCachedInstance of an instance that is at home does not panic and keeps the two maps in
  -- agreement.
  pub put_cached_instance-IsHomed :
      (m : Pmap Tree) (inst : CachedInstance)
      → IsHomed net holds home m
      → IsAtHome net home inst
      → (m' : Pmap Tree) × (put_cached_instance net ops m inst ≡ some m')
        × IsHomed net holds home m'
  put_cached_instance-IsHomed m inst h a = (
    put_result m inst a.numbered.0,
    put_some m inst a.numbered.0 a.numbered.1,
    put_result-IsHomed m h inst a.numbered.0 a.homed a.numbered.1,
  )
