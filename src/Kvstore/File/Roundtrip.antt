-- ===== src/Kvstore/File/Roundtrip.antt =====
-- A saved store comes back from its file.
use mathlib.Core.List.{append_assoc}
use cloudlab_k8s.Prelude.{
  ℕ, zero, suc, ◌≤◌, ◌<◌, ◌≡◌, refl, sym, ◌∙◌, ap, ◌≢◌, Bool, true, false, none, some, List, [],
  ◌∷◌, ◌++◌, map, arith, Text, text_key, text_beq_iff, Map, lookup, lookup-insert, Distinct,
  Enumerates, length, length-append,
}
use cloudlab_k8s.Kvstore.Text.{
  separator, newline, join, split, trim, read_line, IsClean, AllClean, IsLine, IsClean-IsLine,
  IsLine-append, IsLine-join, split-append, trim-IsLine, read_line-append, map-trim-split-join,
}
use cloudlab_k8s.Kvstore.Store.{Store, put_values}
use cloudlab_k8s.Kvstore.Store.Count.{count}
use cloudlab_k8s.Kvstore.Store.Consistent.{
  IsConsistent, put_values-IsConsistent, table-put_values, build_index-put_values,
}
use cloudlab_k8s.Kvstore.File.{
  save_line, save_lines, save, restore_parts, restore_line, restore_loop, restore,
}

-- Each key and value is free of `;` and newlines, and each key has a value.
abbrev pub IsSavable : Map Text (List Text) → Type 0
IsSavable [] = Unit
IsSavable ((k, v) ∷ order) = IsClean k × AllClean v × (v ≢ []) × IsSavable order

-- The file's lines as calls of _putValues, in their order.
abbrev pub put_all : Map Text (List Text) → Store → Store
put_all [] s = s
put_all ((k, v) ∷ order) s = put_all order (put_values s k v)

-- More fuel than bytes changes nothing.
length-rest : (s : Text) → length (read_line s).rest ≤ length s
unfolding read_line
length-rest [] = omega arith
length-rest (c ∷ s) = ground (arith, length-rest s)

pub length-rest-lt : (c : ℕ) (s : Text) → length (read_line (c ∷ s)).rest < length (c ∷ s)
unfolding read_line
length-rest-lt c s = ground (arith, length-rest s)

-- Any two bounds on the rounds that are at least the number of bytes give the same store.
restore_loop_fuel :
    (f g : ℕ) (buffer : Text) (s : Store)
    → length buffer ≤ f
    → length buffer ≤ g
    → restore_loop f buffer s ≡ restore_loop g buffer s
unfolding restore_loop
restore_loop_fuel zero zero buffer s h k = refl
restore_loop_fuel zero (suc g) [] s h k = refl
restore_loop_fuel zero (suc g) (c ∷ buffer) s h k = absurd (omega arith)
restore_loop_fuel (suc f) zero [] s h k = refl
restore_loop_fuel (suc f) zero (c ∷ buffer) s h k = absurd (omega arith)
restore_loop_fuel (suc f) (suc g) [] s h k = refl
restore_loop_fuel (suc f) (suc g) (c ∷ buffer) s h k = ground (
  arith,
  length-rest-lt c buffer,
  restore_loop_fuel f g (read_line (c ∷ buffer)).rest
      (restore_line s (read_line (c ∷ buffer)).text),
)

restore_line-parts :
    (s : Store) (line : Text) → restore_line s line ≡ restore_parts s (map trim (split line))
unfolding restore_line restore_parts split
restore_line-parts s [] = refl
restore_line-parts s (c ∷ line) = refl

-- One round of the loop reads one line.
loop_round :
    (f c : ℕ) (tail rest l : Text) (s : Store)
    → length rest ≤ f
    → read_line (c ∷ tail) ≡ record { text = l; rest = rest; eof = false }
    → restore_loop (suc f) (c ∷ tail) s ≡ restore_loop (length rest) rest (restore_line s l)
unfolding restore_loop
loop_round f c tail rest l s h e =
    rw e (restore_loop_fuel f (length rest) rest (restore_line s l) h (omega arith))

restore_loop-line :
    (f : ℕ) (body rest : Text) (s : Store)
    → IsLine body
    → length (body ++ newline ∷ rest) ≤ f
    → restore_loop f (body ++ newline ∷ rest) s
      ≡ restore_loop (length rest) rest (restore_line s (body ++ newline ∷ []))
restore_loop-line zero [] rest s h k = absurd (omega arith)
restore_loop-line zero (c ∷ body) rest s h k = absurd (omega arith)
restore_loop-line (suc f) [] rest s h k =
    loop_round f newline rest rest (newline ∷ []) s (omega arith) (read_line-append [] rest tt)
restore_loop-line (suc f) (c ∷ body) rest s h k =
    loop_round f c (body ++ newline ∷ rest) rest (c ∷ (body ++ newline ∷ [])) s
      (omega (arith, length-append body (newline ∷ rest))) (read_line-append (c ∷ body) rest h)

IsLine-body : (k : Text) (v : List Text) → IsClean k → AllClean v → IsLine (k ++ separator ∷ join v)
IsLine-body k v h g =
    IsLine-append k (separator ∷ join v) (IsClean-IsLine k h) (ground arith, IsLine-join v g)

-- A line that Save wrote becomes the call of _putValues with the same key and values.
restore_line-save_line :
    (s : Store) (k : Text) (v : List Text)
    → IsClean k
    → AllClean v
    → v ≢ []
    → restore_line s (save_line k v) ≡ put_values s k v
unfolding save_line restore_parts
restore_line-save_line s k [] h g n = absurd (n refl)
restore_line-save_line s k (x ∷ xs) h g n = rw (
  restore_line-parts s (k ++ separator ∷ (join (x ∷ xs) ++ newline ∷ [])),
  split-append k (join (x ∷ xs) ++ newline ∷ []) h,
  trim-IsLine k (IsClean-IsLine k h),
  map-trim-split-join x xs g,
)

restore_loop-save_lines :
    (order : Map Text (List Text)) (s : Store)
    → IsSavable order
    → restore_loop (length (save_lines order)) (save_lines order) s ≡ put_all order s
unfolding save_lines
restore_loop-save_lines [] s h = unfold restore_loop in refl
restore_loop-save_lines ((k, v) ∷ order) s (hk, hv, hn, ho) = rw (line_eq (save_lines order)) (
    restore_loop-line (length ((k ++ separator ∷ join v) ++ newline ∷ save_lines order))
      (k ++ separator ∷ join v) (save_lines order) s (IsLine-body k v hk hv) (omega arith)
    ∙ ap (restore_loop (length (save_lines order)) (save_lines order))
        (ap (restore_line s) (sym (line_eq_nil)) ∙ restore_line-save_line s k v hk hv hn)
    ∙ restore_loop-save_lines order (put_values s k v) ho)
  where
    line_eq : (rest : Text) → save_line k v ++ rest ≡ (k ++ separator ∷ join v) ++ newline ∷ rest
    line_eq rest = unfold save_line in simp append_assoc

    line_eq_nil : save_line k v ≡ (k ++ separator ∷ join v) ++ newline ∷ []
    line_eq_nil = unfold save_line in simp append_assoc

-- The puts of distinct keys leave each with its value.
lookup-put_all :
    (k : Text) (order : Map Text (List Text)) (s : Store)
    → Distinct order
    → lookup k (put_all order s).table
      ≡ elim (lookup k order) [ none ↦ lookup k s.table | some v ↦ some v ]
unfolding lookup
lookup-put_all k [] s d = refl
lookup-put_all k ((j, v) ∷ order) s d = ground (
  arith,
  text_beq_iff j k,
  lookup-put_all k order (put_values s j v) d.1,
  table-put_values s j v,
  lookup-insert j k v s.table,
)

lookup-put_all_empty :
    (k : Text) (order : Map Text (List Text)) (s : Store)
    → s.table ≡ []
    → Distinct order
    → lookup k (put_all order s).table ≡ lookup k order
unfolding lookup
lookup-put_all_empty k order s e d = ground (arith, lookup-put_all k order s d)

put_all-IsConsistent :
    (order : Map Text (List Text)) (s : Store) → IsConsistent s → IsConsistent (put_all order s)
put_all-IsConsistent [] s c = c
put_all-IsConsistent ((k, v) ∷ order) s c =
    put_all-IsConsistent order (put_values s k v) (put_values-IsConsistent s k v c)

build_index-put_all :
    (order : Map Text (List Text)) (s : Store) → (put_all order s).build_index ≡ s.build_index
build_index-put_all [] s = refl
build_index-put_all ((k, v) ∷ order) s =
    build_index-put_all order (put_values s k v) ∙ build_index-put_values s k v

-- What a restored store has to do with the saved one: it has an index exactly if that was asked for,
-- and then the index agrees with the values.
pub record IsRestored (b : Bool) (s r : Store) : Type 0 where
  pub same : (k : Text) → lookup k r.table ≡ lookup k s.table
  pub built : r.build_index ≡ b
  pub consistent : IsConsistent r
  pub unchanged : r.changed ≡ false

-- Save in any order of the map, then Restore of the file into any store: the read succeeds, each
-- key has the values that it had, the store builds an index if and only if the argument of Restore
-- says so and its index is then in step with the values, and nothing is left to write. It holds where
-- keys and values are free of `;` and newlines and each key has a value.
pub restore-save :
    (s t : Store) (order : Map Text (List Text)) (b : Bool)
    → Enumerates order s.table
    → IsSavable order
    → IsRestored b s (restore t (some (save order s).1) b).0
      × ((restore t (some (save order s).1) b).1 ≡ true)
unfolding restore save
restore-save s t order b e h = (
  record {
    same = λ k. rw loaded (found k);
    built = rw loaded (build_index-put_all order cleared);
    consistent = record { indexed = (rw (← loaded) at kept).indexed };
    unchanged = refl;
  },
  refl,
)
  where
    cleared : Store
    cleared = record { table = []; index = []; build_index = b; changed = t.changed }

    loaded :
        restore_loop (length (save_lines order)) (save_lines order) cleared ≡ put_all order cleared
    loaded = restore_loop-save_lines order cleared h

    found : (k : Text) → lookup k (put_all order cleared).table ≡ lookup k s.table
    found k = lookup-put_all_empty k order cleared refl e.distinct ∙ e.same k

    kept : IsConsistent (put_all order cleared)
    kept =
        put_all-IsConsistent order cleared
          (record { indexed = λ k v _. unfold lookup count in refl })

-- Restore reads the line that Save writes for a key with no values, one free of `;` and newlines, as
-- the key with one value, the empty text.
restore_line-save_line_nil :
    (s : Store) (k : Text) → IsClean k → restore_line s (save_line k []) ≡ put_values s k ([] ∷ [])
unfolding save_line restore_parts join split trim
restore_line-save_line_nil s k h = rw (
  restore_line-parts s (k ++ separator ∷ newline ∷ []),
  split-append k (newline ∷ []) h,
  trim-IsLine k (IsClean-IsLine k h),
)
