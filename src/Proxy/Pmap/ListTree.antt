-- ===== src/Proxy/Pmap/ListTree.antt =====
-- The documented behaviour of the interval tree holds of a plain list of its elements.
use cloudlab_k8s.Prelude.{
  Bool-cases, ap, ◌∙◌, ◌≡◌, refl, Bool, true, false, not, ◌&&◌, ◌||◌, ◌⊎◌, inl, inr, ◌↔◌, none,
  List, [], ◌∷◌, string_key, ◌==◌, nat_beq, nat_beq_iff, ℤ, pos, negsuc, if◌then◌else◌, arith,
}
use text.Mathlib.TextEquality.{eq_iff}
use cloudlab_k8s.Proxy.Pmap.{Index, PrincipalIndex, overlap, eq_ℤ, same_key, IntTree, In, IsIntTree}

pub eq_ℤ_iff : (a b : ℤ) → (eq_ℤ a b ≡ true) ↔ (a ≡ b)
eq_ℤ_iff (pos a) (pos b) = ground arith
eq_ℤ_iff (pos a) (negsuc b) = ((λ h. ground arith), (λ h. cc))
eq_ℤ_iff (negsuc a) (pos b) = ((λ h. ground arith), (λ h. cc))
eq_ℤ_iff (negsuc a) (negsuc b) = ground arith

unfoldable pub index_beq : PrincipalIndex → PrincipalIndex → Bool
index_beq x y =
    eq_ℤ x.pmin y.pmin && eq_ℤ x.pmax y.pmax && nat_beq x.id y.id && (x.p == y.p) && (x.pp == y.pp)

index_beq_iff : (x y : PrincipalIndex) → (index_beq x y ≡ true) ↔ (x ≡ y)
unfolding index_beq
index_beq_iff x y = ground (
  arith,
  eq_ℤ_iff x.pmin y.pmin,
  eq_ℤ_iff x.pmax y.pmax,
  nat_beq_iff x.id y.id,
  eq_iff x.p y.p,
  eq_iff x.pp y.pp,
)

abbrev pub list_holds : List PrincipalIndex → PrincipalIndex → Bool
list_holds [] x = false
list_holds (y ∷ t) x = index_beq x y || list_holds t x

abbrev pub keep : (PrincipalIndex → Bool) → List PrincipalIndex → List PrincipalIndex
keep p [] = []
keep p (y ∷ t) = let rest = keep p t in if p y then y ∷ rest else rest

abbrev pub without : Index → List PrincipalIndex → List PrincipalIndex
without d t = keep (λ y. not (same_key d y.index)) t

abbrev pub list_tree : IntTree (List PrincipalIndex)
list_tree = record {
  empty = [];
  tree_insert = λ e t. e ∷ without e.index t;
  tree_delete = λ d t. (without d t, none);
  tree_get = λ q t. keep (λ y. overlap q y.index) t;
}

holds-keep :
    (p : PrincipalIndex → Bool) (t : List PrincipalIndex) (x : PrincipalIndex)
    → list_holds (keep p t) x ≡ (p x && list_holds t x)
holds-keep p [] x = ground arith
holds-keep p (y ∷ t) x = elim (Bool-cases (index_beq x y)) [
  | inl same ↦
      let e : x ≡ y = (index_beq_iff x y).0 same in ground (arith, ap p e, holds-keep p t x)
  | inr other ↦ ground (arith, holds-keep p t x)
]

In-holds : (t : List PrincipalIndex) (x : PrincipalIndex) → In x t → list_holds t x ≡ true
In-holds [] x i = absurd i
In-holds (y ∷ t) x (inl e) = ground (arith, (index_beq_iff x y).1 e)
In-holds (y ∷ t) x (inr i) = ground (arith, In-holds t x i)

pub holds-In : (t : List PrincipalIndex) (x : PrincipalIndex) → list_holds t x ≡ true → In x t
holds-In [] x h = absurd (ground arith)
holds-In (y ∷ t) x h = elim (Bool-cases (index_beq x y)) [
  | inl same ↦ inl ((index_beq_iff x y).0 same)
  | inr other ↦ inr (holds-In t x (ground arith))
]

index_beq_refl : (x : PrincipalIndex) → index_beq x x ≡ true
index_beq_refl x = (index_beq_iff x x).1 refl

holds-insert :
    (e : PrincipalIndex) (t : List PrincipalIndex) (x : PrincipalIndex)
    → list_holds (e ∷ without e.index t) x
      ≡ (index_beq x e || (not (same_key e.index x.index) && list_holds t x))
holds-insert e t x = rw (holds-keep (λ y. not (same_key e.index y.index)) t x) refl

same_key_refl : (d : Index) → same_key d d ≡ true
same_key_refl d = ground (arith, eq_ℤ_iff d.pmin d.pmin, nat_beq_iff d.id d.id)

eq-of-index_beq : (x e : PrincipalIndex) → index_beq x e ≡ true → same_key e.index x.index ≡ true
eq-of-index_beq x e h =
    ap (λ y. same_key e.index y.index) ((index_beq_iff x e).0 h) ∙ same_key_refl e.index

pub list_tree-IsIntTree : IsIntTree list_tree list_holds
list_tree-IsIntTree = record {
  holds-empty = λ x. refl;
  insert_self = λ e t h. rw (holds-insert e t e, index_beq_refl e) refl;
  insert_same = λ e x t h. by_insert e x t (index_beq x e) refl h;
  insert_other = λ e x t h. ground (arith, holds-insert e t x, eq-of-index_beq x e);
  insert_replaces = λ e x t o h k. (index_beq_iff x e).0 (ground (arith, holds-insert e t x, h, k));
  delete_same = λ d x t o h. rw (holds-keep (λ y. not (same_key d y.index)) t x, h) refl;
  delete_other = λ d x t h. rw (holds-keep (λ y. not (same_key d y.index)) t x, h) refl;
  get_sound = λ q t x i.
      let k = In-holds (keep (λ y. overlap q y.index) t) x i in
      ground (arith, k, holds-keep (λ y. overlap q y.index) t x);
  get_complete = λ q t x h o.
      holds-In (keep (λ y. overlap q y.index) t) x
        (rw (holds-keep (λ y. overlap q y.index) t x, h, o) refl);
}
  where
    by_insert :
        (e x : PrincipalIndex) (t : List PrincipalIndex) (b : Bool)
        → index_beq x e ≡ b
        → list_holds (e ∷ without e.index t) x ≡ true
        → (x ≡ e) ⊎ (list_holds t x ≡ true)
    by_insert e x t true q h = inl ((index_beq_iff x e).0 q)
    by_insert e x t false q h = inr (ground (arith, holds-insert e t x))
