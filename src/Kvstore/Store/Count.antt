-- ===== src/Kvstore/Store/Count.antt =====
-- What the loops over the index do to the number of times that a key is listed under a value.
use cloudlab_k8s.Prelude.{
  ℕ, zero, suc, ◌+◌, ◌-◌, ◌≡◌, refl, ◌∙◌, Bool, true, false, ◌&&◌, Option-cases, none, inl, inr,
  some, List, [], ◌∷◌, ◌++◌, arith, Text, text_key, text_beq_iff, ◌==◌, lookup, lookup-insert, take,
  drop, if◌then◌else◌,
}
use cloudlab_k8s.Kvstore.Store.{
  Store, at, position, remove_one_index, remove_each, append_index, append_each,
}

abbrev pub one : Bool → ℕ
one true = 1
one false = 0

unfoldable pub count : Text → List Text → ℕ
count k [] = 0
count k (x ∷ xs) = one (x == k) + count k xs

count-append : (k : Text) (xs ys : List Text) → count k (xs ++ ys) ≡ count k xs + count k ys
unfolding count
count-append k [] ys = omega arith
count-append k (x ∷ xs) ys = omega (arith, count-append k xs ys)

pub count-nil : (k : Text) → count k [] ≡ 0
unfolding count
count-nil k = refl

count-one : (k p : Text) → count k (p ∷ []) ≡ one (p == k)
unfolding count
count-one k p = omega arith

-- Without a position there is no occurrence, and cutting the position out removes one.
position-none : (p : Text) (xs : List Text) → position p xs ≡ none → count p xs ≡ 0
unfolding position count
position-none p [] h = refl
position-none p (x ∷ xs) h = ground (arith, position-none p xs)

count-cut :
    (p k : Text) (xs : List Text) (i : ℕ)
    → position p xs ≡ some i
    → count k (take i xs ++ drop (suc i) xs) + one (p == k) ≡ count k xs
unfolding position count
count-cut p k [] i h = cc
count-cut p k (x ∷ xs) zero h = ground (arith, text_beq_iff x p)
count-cut p k (x ∷ xs) (suc i) h = ground (arith, count-cut p k xs i)

count-remove_one :
    (s : Store) (p x k v : Text)
    → s.build_index ≡ true
    → count k (at v (remove_one_index s p x).index)
      ≡ count k (at v s.index) - one (x == v && p == k)
unfolding remove_one_index
count-remove_one s p x k v b = elim (Option-cases (lookup x s.index)) [
  | inl missing ↦ ground (arith, text_beq_iff x v, missing, count-nil k)
  | inr (xs, found) ↦ elim (Option-cases (position p xs)) [
    | inl absent ↦
        ground (arith, text_beq_iff x v, text_beq_iff p k, found, position-none p xs absent)
    | inr (i, hit) ↦ ground (
      arith,
      text_beq_iff x v,
      found,
      lookup-insert x v (take i xs ++ drop (suc i) xs) s.index,
      count-cut p k xs i hit,
    )
  ]
]

build_index-remove_one :
    (s : Store) (p x : Text) → (remove_one_index s p x).build_index ≡ s.build_index
unfolding remove_one_index
build_index-remove_one s p x = ground arith

table-remove_one : (s : Store) (p x : Text) → (remove_one_index s p x).table ≡ s.table
unfolding remove_one_index
table-remove_one s p x = ground arith

-- The whole loop takes away as many listings of `p` under `v` as the list holds `v`.
pub count-remove_each :
    (s : Store) (p : Text) (xs : List Text) (k v : Text)
    → s.build_index ≡ true
    → count k (at v (remove_each s p xs).index)
      ≡ count k (at v s.index) - (if p == k then count v xs else 0)
unfolding remove_each count
count-remove_each s p [] k v b = ground arith
count-remove_each s p (x ∷ xs) k v b = ground (
  arith,
  build_index-remove_one s p x,
  count-remove_one s p x k v b,
  count-remove_each (remove_one_index s p x) p xs k v,
)

pub table-remove_each :
    (s : Store) (p : Text) (xs : List Text) → (remove_each s p xs).table ≡ s.table
unfolding remove_each
table-remove_each s p [] = refl
table-remove_each s p (x ∷ xs) =
    table-remove_each (remove_one_index s p x) p xs ∙ table-remove_one s p x

pub build_index-remove_each :
    (s : Store) (p : Text) (xs : List Text) → (remove_each s p xs).build_index ≡ s.build_index
unfolding remove_each
build_index-remove_each s p [] = refl
build_index-remove_each s p (x ∷ xs) =
    build_index-remove_each (remove_one_index s p x) p xs ∙ build_index-remove_one s p x

count-append_index :
    (s : Store) (p x k v : Text)
    → count k (at v (append_index s p x).index) ≡ count k (at v s.index) + one (x == v && p == k)
unfolding append_index
count-append_index s p x k v = ground (
  arith,
  text_beq_iff x v,
  lookup-insert x v (at x s.index ++ p ∷ []) s.index,
  count-append k (at x s.index) (p ∷ []),
  count-one k p,
)

-- The loop of _putValues adds one listing for each value.
pub count-append_each :
    (s : Store) (p : Text) (xs : List Text) (k v : Text)
    → count k (at v (append_each s p xs).index)
      ≡ count k (at v s.index) + (if p == k then count v xs else 0)
unfolding append_each count
count-append_each s p [] k v = ground arith
count-append_each s p (x ∷ xs) k v =
    ground (arith, count-append_index s p x k v, count-append_each (append_index s p x) p xs k v)

pub table-append_each :
    (s : Store) (p : Text) (xs : List Text) → (append_each s p xs).table ≡ s.table
unfolding append_each append_index
table-append_each s p [] = refl
table-append_each s p (x ∷ xs) = table-append_each (append_index s p x) p xs

pub build_index-append_each :
    (s : Store) (p : Text) (xs : List Text) → (append_each s p xs).build_index ≡ s.build_index
unfolding append_each append_index
build_index-append_each s p [] = refl
build_index-append_each s p (x ∷ xs) = build_index-append_each (append_index s p x) p xs
