-- ===== src/Proxy/Cache/Serves.antt =====
-- When a Pmap of proxy/pmap.go serves a port of an address, and that putting an instance keeps it.
use cloudlab_k8s.Prelude.{
  ℕ, ◌≤◌, ◌≡◌, refl, sym, ap, ◌∙◌, inl, inr, Bool, true, Bool-cases, Option, some, List, [], ◌∷◌,
  arith, String, string_key, ◌==◌, lookup, lookup-insert, beq_refl, ℤ, pos, suc_ℤ, ◌≤ℤ◌,
}
use text.Mathlib.TextEquality.{eq_iff}
use cloudlab_k8s.Proxy.Types.{Net, CachedInstance}
use cloudlab_k8s.Proxy.Pmap.{
  Index, PrincipalIndex, IntTree, IsIntTree, Pmap, compute_id, tree_at, same_key,
}
use cloudlab_k8s.Proxy.Pmap.ListTree.{eq_ℤ_iff}
use cloudlab_k8s.Proxy.Pmap.Innermost.{Covers}
use cloudlab_k8s.Proxy.Pmap.Ids.{compute_id-one_end}
use cloudlab_k8s.Proxy.Pmap.Homes.{Home, index_of, put_result}

-- The ports of a range are 16-bit numbers; `q` is the end plus one.
abbrev pub Ported : ℤ → ℤ → Type 0
Ported pmin pmax = (p : ℕ) × (q : ℕ) × (pmin ≡ pos p) × (pmax ≡ pos q) × (q ≤ 65536)

abbrev pub AllPorted : List CachedInstance → Type 0
AllPorted [] = Unit
AllPorted (inst ∷ insts) = Ported inst.lport (suc_ℤ inst.rport) × AllPorted insts

-- The instance serves the port at the address.
abbrev pub ServesAt : Net → String → ℤ → CachedInstance → Type 0
ServesAt net ip port inst =
    (net.ip_string inst.ip ≡ ip) × (inst.lport ≤ℤ port) × (port ≤ℤ inst.rport)

-- Two ranges of one address, one start and one ID end alike.
same_end :
    (net : Net) (s : String) (a b c : ℤ) (id : ℕ)
    → Ported a b
    → Ported a c
    → compute_id net s a b ≡ some id
    → compute_id net s a c ≡ some id
    → b ≡ c
same_end net s a b c id (p, q, pa, qb, ql) (p', r, pa', rc, rl) e f =
    qb
    ∙ ap pos (compute_id-one_end net s p q r id ql rl (rw (pa, qb) at e) (rw (pa, rc) at f))
    ∙ sym rc

in_order : (a b port : ℤ) → a ≤ℤ port → port ≤ℤ b → a ≤ℤ suc_ℤ b
in_order a b port h k = ground arith

covers_order : (a b port : ℤ) → a ≤ℤ port → suc_ℤ port ≤ℤ b → a ≤ℤ b
covers_order a b port h k = ground arith

same_key_parts : (a b : Index) → same_key a b ≡ true → (a.pmin ≡ b.pmin) × (a.id ≡ b.id)
same_key_parts a b h = ground (arith, eq_ℤ_iff a.pmin b.pmin)

suc_covers : (a b port : ℤ) → a ≤ℤ port → port ≤ℤ b → (a ≤ℤ port) × (suc_ℤ port ≤ℤ suc_ℤ b)
suc_covers a b port h k = ground arith

module _ {Tree : Type 0} (net : Net) (ops : IntTree Tree) (holds : Tree → PrincipalIndex → Bool)
    (laws : IsIntTree ops holds) (home : String → Option Home) where
  -- The tree has an index that covers the port, one made for the address.
  pub record TreeServes (tree : Tree) (ip : String) (port : ℤ) : Type 0 where
    pub x : PrincipalIndex
    pub held : holds tree x ≡ true
    pub covers : Covers x port
    pub ported : Ported x.pmin x.pmax
    pub numbered : compute_id net ip x.pmin x.pmax ≡ some x.id

  pub record Serves (m : Pmap Tree) (ip : String) (port : ℤ) : Type 0 where
    pub tree : Tree
    pub at_ip : lookup ip m.identities ≡ some tree
    pub serves : TreeServes tree ip port

  put_tree :
      (m : Pmap Tree) (inst : CachedInstance) (id : ℕ) (ip : String) (port : ℤ)
      → net.ip_string inst.ip ≡ ip
      → TreeServes
          (ops.tree_insert
            (index_of net ops holds laws home inst id)
            (tree_at net ops ip m.identities))
          ip
          port
      → Serves (put_result net ops holds laws home m inst id) ip port
  put_tree m inst id ip port e t = record {
    tree =
        ops.tree_insert (index_of net ops holds laws home inst id)
          (tree_at net ops ip m.identities);
    at_ip = rw e (lookup-insert ip ip _ m.identities ∙ rw (beq_refl ip) refl);
    serves = t;
  }

  pub added :
      (m : Pmap Tree) (inst : CachedInstance) (id : ℕ) (ip : String) (port : ℤ)
      → compute_id net (net.ip_string inst.ip) inst.lport (suc_ℤ inst.rport) ≡ some id
      → Ported inst.lport (suc_ℤ inst.rport)
      → ServesAt net ip port inst
      → Serves (put_result net ops holds laws home m inst id) ip port
  added m inst id ip port n p (e, l, r) = put_tree m inst id ip port e (record {
    x = index_of net ops holds laws home inst id;
    held = laws.insert_self _ _ (in_order inst.lport inst.rport port l r);
    covers = suc_covers inst.lport inst.rport port l r;
    ported = p;
    numbered = ap (λ s. compute_id net s inst.lport (suc_ℤ inst.rport)) (sym e) ∙ n;
  })

  -- An insertion under the key of the index that covers the port is of the same range.
  kept_in_tree :
      (e : PrincipalIndex) (t : Tree) (ip : String) (port : ℤ)
      → Ported e.pmin e.pmax
      → compute_id net ip e.pmin e.pmax ≡ some e.id
      → TreeServes t ip port
      → TreeServes (ops.tree_insert e t) ip port
  kept_in_tree e t ip port p n s = elim (Bool-cases (same_key e.index s.x.index)) [
    | inl same ↦
        let (start, number) = same_key_parts e.index s.x.index same in
        let end : e.pmax ≡ s.x.pmax =
          same_end net ip e.pmin e.pmax s.x.pmax e.id p (rw (← start) at s.ported) n
            (rw (← start, ← number) at s.numbered) in
        let covered : Covers e port = rw (start, end) s.covers in
        record {
          x = e;
          held = laws.insert_self e t (covers_order e.pmin e.pmax port covered.0 covered.1);
          covers = covered;
          ported = p;
          numbered = n;
        }
    | inr other ↦ record {
      x = s.x;
      held = laws.insert_other e s.x t other ∙ s.held;
      covers = s.covers;
      ported = s.ported;
      numbered = s.numbered;
    }
  ]

  -- Putting an instance keeps what is served.
  pub kept :
      (m : Pmap Tree) (inst : CachedInstance) (id : ℕ) (ip : String) (port : ℤ)
      → compute_id net (net.ip_string inst.ip) inst.lport (suc_ℤ inst.rport) ≡ some id
      → Ported inst.lport (suc_ℤ inst.rport)
      → Serves m ip port
      → Serves (put_result net ops holds laws home m inst id) ip port
  kept m inst id ip port n p s = elim (Bool-cases (net.ip_string inst.ip == ip)) [
    | inl same ↦
        let e = (eq_iff (net.ip_string inst.ip) ip).0 same in
        put_tree m inst id ip port e (
          kept_in_tree (index_of net ops holds laws home inst id) _ ip port p
            (ap (λ s. compute_id net s inst.lport (suc_ℤ inst.rport)) (sym e) ∙ n)
            (rw (s.at_ip, tree_at) s.serves))
    | inr other ↦ record {
      tree = s.tree;
      at_ip = lookup-insert (net.ip_string inst.ip) ip _ m.identities ∙ rw other s.at_ip;
      serves = s.serves;
    }
  ]
