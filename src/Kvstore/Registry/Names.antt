-- ===== src/Kvstore/Registry/Names.antt =====
-- Names of stores: the suffix of a store without an index, and what NewStore and GetStore share.
use cloudlab_k8s.Prelude.{
  ℕ, ◌-◌, ◌≡◌, refl, ◌≢◌, ap, Bool, true, false, ◌&&◌, none, some, [], ◌∷◌, ◌++◌, arith, Text,
  text_key, text_beq_iff, beq_refl, lookup, lookup-insert, length, length-append, drop,
}
use cloudlab_k8s.Kvstore.Registry.{
  Registry, no_index, has_suffix, wrap_name, indexed_store, new_store, get_store,
}

drop-length-append : (x y : Text) → drop (length x) (x ++ y) ≡ y
drop-length-append [] y = refl
drop-length-append (c ∷ x) y = drop-length-append x y

has_suffix-append : (x y : Text) → has_suffix (x ++ y) y ≡ true
unfolding has_suffix
has_suffix-append x y =
    let rest : length (x ++ y) - length y ≡ length x = omega (arith, length-append x y) in
    rw (rest, drop-length-append x y, beq_refl y) (ground (arith, length-append x y))

-- The flag that RestartStore reads off a file's name is the one that the store was made with, but
-- for a store with an index whose own name ends in ".NoIndex".
indexed_store-wrap_name :
    (name : Text) (b : Bool) → indexed_store (wrap_name name b) ≡ (b && indexed_store name)
unfolding indexed_store wrap_name
indexed_store-wrap_name name true = refl
indexed_store-wrap_name name false = rw (has_suffix-append name no_index)

-- NewStore a second time for a name and flag returns the same store and makes no other.
new_store_twice :
    (r : Registry) (name : Text) (b : Bool)
    → new_store (new_store r name b).0 name b ≡ new_store r name b
unfolding new_store
new_store_twice r name b = ground (
  arith,
  lookup-insert (wrap_name name b) (wrap_name name b) (length r.stores) r.watched,
  beq_refl (wrap_name name b),
)

lookup-new_store :
    (r : Registry) (name : Text) (b : Bool)
    → lookup (wrap_name name b) (new_store r name b).0.watched ≡ some (new_store r name b).1
unfolding new_store
lookup-new_store r name b = ground (
  arith,
  lookup-insert (wrap_name name b) (wrap_name name b) (length r.stores) r.watched,
  beq_refl (wrap_name name b),
)

append-no_index-ne : (name : Text) → name ++ no_index ≢ name
append-no_index-ne name e = omega (arith, ap length e, length-append name no_index)

lookup-new_store_other :
    (r : Registry) (name : Text)
    → lookup name r.watched ≡ none
    → lookup name (new_store r name false).0.watched ≡ none
unfolding new_store wrap_name
lookup-new_store_other r name h = ground (
  arith,
  lookup-insert (name ++ no_index) name (length r.stores) r.watched,
  text_beq_iff (name ++ no_index) name,
  append-no_index-ne name,
)

-- GetStore finds the store that NewStore returned, by the same name; one without an index is found
-- where no store with an index has the name.
pub get_store-new_store :
    (r : Registry) (name : Text) (b : Bool)
    → (b ≡ false → lookup name r.watched ≡ none)
    → (get_store (new_store r name b).0 name).1 ≡ some (new_store r name b).1
unfolding get_store wrap_name
get_store-new_store r name true h = ground (arith, lookup-new_store r name true)
get_store-new_store r name false h =
    ground (arith, lookup-new_store_other r name (h refl), lookup-new_store r name false)

found_again :
    (r : Registry) (name : Text) (p : ℕ)
    → lookup name r.watched ≡ some p
    → (new_store r name true).1 ≡ p
unfolding new_store wrap_name
found_again r name p h = ground arith

-- NewStore of `name` + ".NoIndex" with an index returns the store that was made for `name` without
-- one.
new_store_collision :
    (r : Registry) (name : Text)
    → (new_store (new_store r name false).0 (name ++ no_index) true).1 ≡ (new_store r name false).1
unfolding wrap_name
new_store_collision r name =
    found_again (new_store r name false).0 (name ++ no_index) (new_store r name false).1
      (lookup-new_store r name false)
