-- ===== src/Kvstore/Store/Contents.antt =====
-- What a store promises its readers: a map from keys to lists of values, with no index in sight.
use cloudlab_k8s.Prelude.{
  ℕ, suc, ◌≡◌, refl, ◌∙◌, Bool, Option, none, some, List, [], ◌∷◌, arith, Text, text_key,
  text_beq_iff, ◌==◌, Map, lookup, lookup-insert, lookup-erase, Distinct, Distinct-insert,
  Distinct-erase, Enumerates, if◌then◌else◌,
}
use cloudlab_k8s.Kvstore.Store.{
  Store, Op, put_op, put_values_op, del_op, new, get, get_values, keys, step, run,
}
use cloudlab_k8s.Kvstore.Store.Consistent.{put-eq-put_values, table-put_values, table-del}

abbrev pub Contents : Type 0
Contents = Text → Option (List Text)

abbrev pub note : Contents → Op → Contents
note m (put_op p x) k = if p == k then some (x ∷ []) else m k
note m (put_values_op p xs) k = if p == k then some xs else m k
note m (del_op p) k = if p == k then none else m k

abbrev pub history : Contents → List Op → Contents
history m [] k = m k
history m (op ∷ ops) k = history (note m op) ops k

lookup-step :
    (s : Store) (op : Op) (k : Text)
    → lookup k (step s op).table ≡ note (λ j. lookup j s.table) op k
unfolding step
lookup-step s (put_op p x) k =
    rw (put-eq-put_values s p x, table-put_values s p (x ∷ [])) (lookup-insert p k (x ∷ []) s.table)
lookup-step s (put_values_op p xs) k = rw (table-put_values s p xs) (lookup-insert p k xs s.table)
lookup-step s (del_op p) k = rw (table-del s p) (lookup-erase p k s.table)

history_ext :
    (ops : List Op) (m n : Contents) (k : Text)
    → ((j : Text) → m j ≡ n j)
    → history m ops k ≡ history n ops k
history_ext [] m n k h = h k
history_ext (op ∷ ops) m n k h = history_ext ops (note m op) (note n op) k (noted op)
  where
    noted : (op : Op) (j : Text) → note m op j ≡ note n op j
    noted (put_op p x) j = rw (h j)
    noted (put_values_op p xs) j = rw (h j)
    noted (del_op p) j = rw (h j)

lookup-run :
    (s : Store) (ops : List Op) (k : Text)
    → lookup k (run s ops).table ≡ history (λ j. lookup j s.table) ops k
unfolding run
lookup-run s [] k = refl
lookup-run s (op ∷ ops) k = lookup-run (step s op) ops k ∙ history_ext ops _ _ k (lookup-step s op)

abbrev pub values_of : Option (List Text) → List Text
values_of none = []
values_of (some xs) = xs

abbrev pub first_of_values : List Text → Text
first_of_values [] = []
first_of_values (x ∷ xs) = x

-- After any operations, with or without an index, GetValues of a key returns the values of the
-- last operation on that key, and nothing if that was a Del or there was none; Get returns the
-- first of them, or the empty text.
pub run-Contents :
    (b : Bool) (ops : List Op) (k : Text)
    → (get_values (run (new b) ops) k ≡ values_of (history (λ _. none) ops k))
      × (get (run (new b) ops) k ≡ first_of_values (values_of (history (λ _. none) ops k)))
unfolding get get_values lookup
run-Contents b ops k = ground (arith, lookup-run (new b) ops k)

step-Distinct : (s : Store) (op : Op) → Distinct s.table → Distinct (step s op).table
unfolding step
step-Distinct s (put_op p x) d =
    rw (put-eq-put_values s p x, table-put_values s p (x ∷ []))
      (Distinct-insert p (x ∷ []) s.table d)
step-Distinct s (put_values_op p xs) d =
    rw (table-put_values s p xs) (Distinct-insert p xs s.table d)
step-Distinct s (del_op p) d = rw (table-del s p) (Distinct-erase p s.table d)

-- No operation puts a key into the map twice.
run-Distinct : (s : Store) (ops : List Op) → Distinct s.table → Distinct (run s ops).table
unfolding run
run-Distinct s [] d = d
run-Distinct s (op ∷ ops) d = run-Distinct (step s op) ops (step-Distinct s op d)

abbrev pub occurrences : Text → List Text → ℕ
occurrences k [] = 0
occurrences k (x ∷ xs) = if x == k then suc (occurrences k xs) else occurrences k xs

abbrev pub present : Option (List Text) → ℕ
present none = 0
present (some xs) = 1

occurrences-keys :
    (k : Text) (order : Map Text (List Text))
    → Distinct order
    → occurrences k (keys order) ≡ present (lookup k order)
unfolding keys lookup
occurrences-keys k [] d = refl
occurrences-keys k ((j, v) ∷ order) d =
    ground (arith, occurrences-keys k order d.1, text_beq_iff j k)

-- Whatever the order of the map, Keys lists each key once if it is in the store, else not at all.
keys-once :
    (s : Store) (order : Map Text (List Text)) (k : Text)
    → Enumerates order s.table
    → occurrences k (keys order) ≡ present (lookup k s.table)
keys-once s order k e = rw (← e.same k) (occurrences-keys k order e.distinct)
