-- ===== src/Proxy/Pmap/Innermost.antt =====
-- GetIndex: what it returns holds the port and is, where ranges nest, the innermost of all.
use cloudlab_k8s.Prelude.{
  ◌≡◌, refl, ◌⊎◌, inl, inr, Bool, true, Option, none, some, List, [], ◌∷◌, arith, String,
  string_key, lookup, ℤ, suc_ℤ, ◌≤ℤ◌,
}
use cloudlab_k8s.Proxy.Pmap.{
  PrincipalIndex, IntTree, IsIntTree, In, Pmap, overlap, inner, innermost, port_query, at_port,
  get_index,
}

-- `x` lies within `y`.
abbrev pub Within : PrincipalIndex → PrincipalIndex → Type 0
Within x y = (y.pmin ≤ℤ x.pmin) × (x.pmax ≤ℤ y.pmax)

-- Of any two ranges one lies within the other.
abbrev pub Nested : List PrincipalIndex → Type 0
Nested xs = (x y : PrincipalIndex) → In x xs → In y xs → Within x y ⊎ Within y x

-- The port is one of the range.
abbrev pub Covers : PrincipalIndex → ℤ → Type 0
Covers x port = (x.pmin ≤ℤ port) × (suc_ℤ port ≤ℤ x.pmax)

Within-trans : (x y z : PrincipalIndex) → Within x y → Within y z → Within x z
Within-trans x y z h k = omega arith

inner-or : (found x : PrincipalIndex) → (inner found x ≡ found) ⊎ (inner found x ≡ x)
unfolding inner
inner-or found x = ground arith

inner-Within :
    (found x : PrincipalIndex)
    → Within x found ⊎ Within found x
    → Within (inner found x) found × Within (inner found x) x
unfolding inner
inner-Within found x h = ground arith

innermost-In :
    (found : PrincipalIndex) (xs : List PrincipalIndex) → In (innermost found xs) (found ∷ xs)
unfolding innermost
innermost-In found [] = inl refl
innermost-In found (x ∷ xs) = ground (arith, innermost-In (inner found x) xs, inner-or found x)

In-inner :
    (found x z : PrincipalIndex) (xs : List PrincipalIndex)
    → In z (inner found x ∷ xs)
    → In z (found ∷ x ∷ xs)
In-inner found x z xs (inl e) = ground (arith, inner-or found x)
In-inner found x z xs (inr i) = inr (inr i)

-- The result lies within every element.
innermost-Within :
    (found : PrincipalIndex) (xs : List PrincipalIndex)
    → Nested (found ∷ xs)
    → (y : PrincipalIndex) → In y (found ∷ xs)
    → Within (innermost found xs) y
unfolding innermost
innermost-Within found [] n y (inl e) = rw e (omega arith)
innermost-Within found [] n y (inr i) = absurd i
innermost-Within found (x ∷ xs) n y i =
    let g = inner found x in
    let within = inner-Within found x (n x found (inr (inl refl)) (inl refl)) in
    let smaller : Nested (g ∷ xs) =
      λ a b p q. n a b (In-inner found x a xs p) (In-inner found x b xs q) in
    elim i [
      | inl e ↦ rw e (
          Within-trans (innermost g xs) g found (innermost-Within g xs smaller g (inl refl))
            within.0)
      | inr (inl e) ↦
          rw e (
            Within-trans (innermost g xs) g x (innermost-Within g xs smaller g (inl refl)) within.1)
      | inr (inr later) ↦ innermost-Within g xs smaller y (inr later)
    ]

overlap-Covers :
    (x : PrincipalIndex) (port : ℤ)
    → (overlap (port_query port) x.index ≡ true → Covers x port)
      × (Covers x port → overlap (port_query port) x.index ≡ true)
unfolding overlap
overlap-Covers x port = (λ h. ground arith, λ h. ground arith)

at_port-some :
    (first : PrincipalIndex) (xs : List PrincipalIndex) (port : ℤ)
    → Covers (innermost first xs) port
    → at_port port (first ∷ xs) ≡ some (innermost first xs)
at_port-some first xs port c = ground arith

get_index_at :
    {Tree : Type 0} (ops : IntTree Tree) (m : Pmap Tree) (ip : String) (tree : Tree) (port : ℤ)
    → lookup ip m.identities ≡ some tree
    → get_index ops m ip port ≡ at_port port (ops.tree_get (port_query port) tree)
unfolding get_index
get_index_at ops m ip tree port h = rw (h, get_index)

module _ {Tree : Type 0} (ops : IntTree Tree) (holds : Tree → PrincipalIndex → Bool)
    (laws : IsIntTree ops holds) where
  -- What GetIndex finds in the tree of an address: an index of the tree that covers the port, and
  -- that lies within every other one that does, where all that do are nested.
  pub record IsInnermost (tree : Tree) (port : ℤ) (x : PrincipalIndex) : Type 0 where
    pub held : holds tree x ≡ true
    pub covers : Covers x port
    pub least :
        ((a b : PrincipalIndex)
          → holds tree a ≡ true
          → holds tree b ≡ true
          → Covers a port
          → Covers b port
          → Within a b ⊎ Within b a)
        → (y : PrincipalIndex) → holds tree y ≡ true
        → Covers y port
        → Within x y

  found-Covers :
      (tree : Tree) (port : ℤ) (x : PrincipalIndex)
      → In x (ops.tree_get (port_query port) tree)
      → (holds tree x ≡ true) × Covers x port
  found-Covers tree port x i =
      let s = laws.get_sound (port_query port) tree x i in (s.0, (overlap-Covers x port).0 s.1)

  abbrev pub Found : Tree → ℤ → Option PrincipalIndex → Type 0
  Found tree port none = (y : PrincipalIndex) → holds tree y ≡ true → Covers y port → ⊥
  Found tree port (some x) = IsInnermost tree port x

  at_port-Found :
      (tree : Tree) (port : ℤ) (xs : List PrincipalIndex)
      → ops.tree_get (port_query port) tree ≡ xs
      → Found tree port (at_port port xs)
  at_port-Found tree port [] e = λ y h c.
      let i = laws.get_complete (port_query port) tree y h ((overlap-Covers y port).1 c) in
      rw e at i
  at_port-Found tree port (first ∷ xs) e =
      let x = innermost first xs in
      let found = found-Covers tree port x (rw e (innermost-In first xs)) in
      rw (at_port-some first xs port found.1) (record {
        held = found.0;
        covers = found.1;
        least = λ nest y h c.
            innermost-Within first xs
              (λ a b i j.
                let fa = found-Covers tree port a (rw e i) in
                let fb = found-Covers tree port b (rw e j) in nest a b fa.0 fb.0 fa.1 fb.1)
              y
              (let i = laws.get_complete (port_query port) tree y h ((overlap-Covers y port).1 c) in
                rw e at i);
      })

  pub get_index-Found :
      (m : Pmap Tree) (ip : String) (tree : Tree) (port : ℤ)
      → lookup ip m.identities ≡ some tree
      → Found tree port (get_index ops m ip port)
  get_index-Found m ip tree port h =
      rw (get_index_at ops m ip tree port h) (at_port-Found tree port _ refl)

  -- Of any two indexes of the tree that cover the port, one lies within the other.
  abbrev pub NestedAt : Tree → ℤ → Type 0
  NestedAt tree port =
      (a b : PrincipalIndex)
      → holds tree a ≡ true
      → holds tree b ≡ true
      → Covers a port
      → Covers b port
      → Within a b ⊎ Within b a

  -- The index for a port: one of the tree that covers it, within all others that do; `none` where
  -- none covers it.
  abbrev pub Best : Tree → ℤ → Option PrincipalIndex → Type 0
  Best tree port none = (y : PrincipalIndex) → holds tree y ≡ true → ¬ Covers y port
  Best tree port (some x) =
      (holds tree x ≡ true)
      × Covers x port
      × ((y : PrincipalIndex) → holds tree y ≡ true → Covers y port → Within x y)

  -- GetIndex for an address that has a tree in which the indexes that cover the port are nested: it
  -- finds an index exactly if one of the tree covers the port, and what it finds is the innermost.
  pub get_index-Best :
      (m : Pmap Tree) (ip : String) (tree : Tree) (port : ℤ)
      → lookup ip m.identities ≡ some tree
      → NestedAt tree port
      → Best tree port (get_index ops m ip port)
  get_index-Best m ip tree port h nested =
      go (get_index ops m ip port) (get_index-Found m ip tree port h)
    where
      go : (o : Option PrincipalIndex) → Found tree port o → Best tree port o
      go none f = f
      go (some x) f = (f.held, f.covers, f.least nested)
