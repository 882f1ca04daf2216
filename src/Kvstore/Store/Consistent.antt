-- ===== src/Kvstore/Store/Consistent.antt =====
-- The index of a store lists each key under each of its values, as often as the key holds it.
use cloudlab_k8s.Prelude.{
  ◌≡◌, refl, sym, ap, ◌∙◌, Bool, true, false, Option-cases, inl, inr, List, [], ◌∷◌, arith, Text,
  text_key, text_beq_iff, ◌==◌, lookup, insert, erase, lookup-insert, lookup-erase, if◌then◌else◌,
}
use cloudlab_k8s.Kvstore.Store.{
  Store, Op, put_op, put_values_op, del_op, new, at, remove_indexes, append_each, put, put_values,
  del, get_key, get_values, step, run,
}
use cloudlab_k8s.Kvstore.Store.Count.{
  count, count-nil, count-remove_each, table-remove_each, build_index-remove_each,
  count-append_each, table-append_each, build_index-append_each,
}

pub record IsConsistent (s : Store) : Type 0 where
  pub indexed :
      (k v : Text) → s.build_index ≡ true → count k (at v s.index) ≡ count v (at k s.table)

-- removeIndexes takes every listing of the path away, and no other.
count-remove_indexes :
    (s : Store) (p k v : Text)
    → IsConsistent s
    → s.build_index ≡ true
    → count k (at v (remove_indexes s p).index) ≡ (if p == k then 0 else count k (at v s.index))
unfolding remove_indexes
count-remove_indexes s p k v c b = elim (Option-cases (lookup p s.table)) [
  | inl missing ↦ ground (arith, missing, text_beq_iff p k, c.indexed k v b, count-nil v)
  | inr (xs, found) ↦
      ground (arith, found, text_beq_iff p k, c.indexed k v b, count-remove_each s p xs k v b)
]

table-remove_indexes : (s : Store) (p : Text) → (remove_indexes s p).table ≡ s.table
unfolding remove_indexes
table-remove_indexes s p = ground (arith, table-remove_each s p (at p s.table))

build_index-remove_indexes :
    (s : Store) (p : Text) → (remove_indexes s p).build_index ≡ s.build_index
unfolding remove_indexes
build_index-remove_indexes s p = ground (arith, build_index-remove_each s p (at p s.table))

-- Put of one value is PutValues of the list that holds it.
pub put-eq-put_values : (s : Store) (p x : Text) → put s p x ≡ put_values s p (x ∷ [])
unfolding put put_values append_each
put-eq-put_values s p x = refl

-- The store between the two halves of _putValues.
abbrev replaced : Store → Text → List Text → Store
replaced s p xs = record (remove_indexes s p) { table = insert p xs (remove_indexes s p).table }

count-put_values :
    (s : Store) (p : Text) (xs : List Text) (k v : Text)
    → IsConsistent s
    → s.build_index ≡ true
    → count k (at v (put_values s p xs).index) ≡ count v (at k (put_values s p xs).table)
unfolding put_values
count-put_values s p xs k v c b = ground (
  arith,
  build_index-remove_indexes s p,
  count-append_each (replaced s p xs) p xs k v,
  table-append_each (replaced s p xs) p xs,
  count-remove_indexes s p k v c b,
  table-remove_indexes s p,
  lookup-insert p k xs s.table,
  c.indexed k v b,
)

pub build_index-put_values :
    (s : Store) (p : Text) (xs : List Text) → (put_values s p xs).build_index ≡ s.build_index
unfolding put_values
build_index-put_values s p xs =
    ground (arith, build_index-append_each (replaced s p xs) p xs, build_index-remove_indexes s p)

pub table-put_values :
    (s : Store) (p : Text) (xs : List Text) → (put_values s p xs).table ≡ insert p xs s.table
unfolding put_values
table-put_values s p xs =
    ground (arith, table-append_each (replaced s p xs) p xs, table-remove_indexes s p)

pub table-del : (s : Store) (p : Text) → (del s p).table ≡ erase p s.table
unfolding del
table-del s p = ground (arith, table-remove_indexes s p)

build_index-del : (s : Store) (p : Text) → (del s p).build_index ≡ s.build_index
unfolding del
build_index-del s p = build_index-remove_indexes s p

count-del :
    (s : Store) (p k v : Text)
    → IsConsistent s
    → s.build_index ≡ true
    → count k (at v (del s p).index) ≡ count v (at k (del s p).table)
unfolding del
count-del s p k v c b = ground (
  arith,
  build_index-remove_indexes s p,
  count-remove_indexes s p k v c b,
  table-remove_indexes s p,
  lookup-erase p k s.table,
  c.indexed k v b,
  count-nil v,
)

pub put_values-IsConsistent :
    (s : Store) (p : Text) (xs : List Text) → IsConsistent s → IsConsistent (put_values s p xs)
put_values-IsConsistent s p xs c = record {
  indexed = λ k v b. count-put_values s p xs k v c (sym (build_index-put_values s p xs) ∙ b);
}

del-IsConsistent : (s : Store) (p : Text) → IsConsistent s → IsConsistent (del s p)
del-IsConsistent s p c = record {
  indexed = λ k v b. count-del s p k v c (sym (build_index-del s p) ∙ b);
}

-- Every operation keeps the index in step with the data.
step-IsConsistent : (s : Store) (op : Op) → IsConsistent s → IsConsistent (step s op)
unfolding step
step-IsConsistent s (put_op p x) c = rw put-eq-put_values (put_values-IsConsistent s p (x ∷ []) c)
step-IsConsistent s (put_values_op p xs) c = put_values-IsConsistent s p xs c
step-IsConsistent s (del_op p) c = del-IsConsistent s p c

run-IsConsistent : (s : Store) (ops : List Op) → IsConsistent s → IsConsistent (run s ops)
unfolding run
run-IsConsistent s [] c = c
run-IsConsistent s (op ∷ ops) c = run-IsConsistent (step s op) ops (step-IsConsistent s op c)

pub new-IsConsistent : (b : Bool) → IsConsistent (new b)
new-IsConsistent b = record { indexed = λ k v h. unfold lookup count in refl }

build_index-run : (s : Store) (ops : List Op) → (run s ops).build_index ≡ s.build_index
unfolding run step
build_index-run s [] = refl
build_index-run s (put_op p x ∷ ops) =
    build_index-run (put s p x) ops
    ∙ ap (λ t. t.build_index) (put-eq-put_values s p x)
    ∙ build_index-put_values s p (x ∷ [])
build_index-run s (put_values_op p xs ∷ ops) =
    build_index-run (put_values s p xs) ops ∙ build_index-put_values s p xs
build_index-run s (del_op p ∷ ops) = build_index-run (del s p) ops ∙ build_index-del s p

-- After any operations on a new store with an index, GetKey of a value lists each key exactly as
-- often as GetValues of that key lists the value; a store without an index answers with no key.
pub get_key-run :
    (b : Bool) (ops : List Op) (k v : Text)
    → count k (get_key (run (new b) ops) v)
      ≡ (if b then count v (get_values (run (new b) ops) k) else 0)
unfolding get_key get_values
get_key-run true ops k v = rw (build_index-run (new true) ops) (
    (run-IsConsistent (new true) ops (new-IsConsistent true)).indexed k v
      (build_index-run (new true) ops))
get_key-run false ops k v = rw (build_index-run (new false) ops) (count-nil k)
