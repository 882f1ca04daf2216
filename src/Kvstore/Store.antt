-- ===== src/Kvstore/Store.antt =====
-- `type store` of proxy/internal/pkg/kvstore/store.go and its methods but Save and Restore. A
-- method returns the new store; the mutex is held over each whole method, so a method is one step.
pub mod Count
pub mod Consistent
pub mod Contents
use cloudlab_k8s.Prelude.{
  ℕ, zero, suc, Bool, true, false, Option, none, some, List, [], ◌∷◌, ◌++◌, map, Text, text_key,
  ◌==◌, Map, lookup, insert, erase, take, drop, if◌then◌else◌,
}

pub record Store : Type 0 where
  -- `data` of the source
  pub table : Map Text (List Text)
  pub index : Map Text (List Text)
  pub build_index : Bool
  pub changed : Bool

-- The store that NewStore makes.
abbrev pub new : Bool → Store
new build_index = record { table = []; index = []; build_index = build_index; changed = true }

-- Reading a missing key of a Go map gives the nil slice.
abbrev pub at : Text → Map Text (List Text) → List Text
at k m = elim (lookup k m) [ none ↦ [] | some vs ↦ vs ]

-- The loop of removeOneIndex up to its break: the position of the first occurrence.
unfoldable pub position : Text → List Text → Option ℕ
position path [] = none
position path (key ∷ keys) =
    let rest : Option ℕ = elim (position path keys) [ none ↦ none | some i ↦ some (suc i) ] in
    if key == path then some zero else rest

unfoldable pub remove_one_index : Store → Text → Text → Store
remove_one_index s path value =
    if s.build_index
    then elim (lookup value s.index) [
      | none ↦ s
      | some indexes ↦ elim (position path indexes) [
        | none ↦ s
        | some i ↦ record s {
          index = insert value (take i indexes ++ drop (suc i) indexes) s.index;
        }
      ]
    ]
    else s

-- The loop of removeIndexes over the values of the path.
unfoldable pub remove_each : Store → Text → List Text → Store
remove_each s path [] = s
remove_each s path (item ∷ data_items) = remove_each (remove_one_index s path item) path data_items

unfoldable pub remove_indexes : Store → Text → Store
remove_indexes s path =
    if s.build_index
    then elim (lookup path s.table) [ none ↦ s | some data_items ↦ remove_each s path data_items ]
    else s

-- `s.index[value] = append(s.index[value], path)`
unfoldable pub append_index : Store → Text → Text → Store
append_index s path value = record s {
  index = insert value (at value s.index ++ path ∷ []) s.index;
}

unfoldable pub put : Store → Text → Text → Store
unfolding append_index
put s path value =
    let s1 = remove_indexes s path in
    let s2 = record s1 { table = insert path (value ∷ []) s1.table } in
    let s3 = if s2.build_index then append_index s2 path value else s2 in
    record s3 { changed = true }

-- The loop of _putValues over the new values.
unfoldable pub append_each : Store → Text → List Text → Store
append_each s path [] = s
append_each s path (i ∷ values) = append_each (append_index s path i) path values

unfoldable pub put_values : Store → Text → List Text → Store
put_values s path values =
    let s1 = remove_indexes s path in
    let s2 = record s1 { table = insert path values s1.table } in
    let s3 = if s2.build_index then append_each s2 path values else s2 in
    record s3 { changed = true }

unfoldable pub get : Store → Text → Text
get s path = elim (lookup path s.table) [
  | none ↦ []
  | some values ↦ elim values [ [] ↦ [] | value ∷ _ ↦ value ]
]

unfoldable pub del : Store → Text → Store
del s path = let s1 = remove_indexes s path in record s1 { table = erase path s1.table }

-- Keys ranges over the map, in the order that the run-time chose.
unfoldable pub keys : Map Text (List Text) → List Text
keys order = map (λ entry. entry.0) order

unfoldable pub get_key : Store → Text → List Text
get_key s value = if s.build_index then at value s.index else []

unfoldable pub get_values : Store → Text → List Text
get_values s path = at path s.table

-- The operations that change a store, and a run of them.
pub data Op : Type 0 where
  put_op : Text → Text → Op
  put_values_op : Text → List Text → Op
  del_op : Text → Op

unfoldable pub step : Store → Op → Store
step s (put_op path value) = put s path value
step s (put_values_op path values) = put_values s path values
step s (del_op path) = del s path

unfoldable pub run : Store → List Op → Store
run s [] = s
run s (op ∷ ops) = run (step s op) ops
