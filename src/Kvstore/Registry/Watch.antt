-- ===== src/Kvstore/Registry/Watch.antt =====
-- What the watcher's visit makes durable, and what it misses.
pub mod Pass
use cloudlab_k8s.Prelude.{
  ℕ, zero, suc, ◌≡◌, refl, ◌∙◌, ◌⊎◌, Option-cases, lookup, Bool, true, false, not, Bool-cases,
  Option, none, some, List, [], ◌∷◌, arith, Text, Map, Enumerates, get_elem?, set, inl, inr,
  text_key,
}
use cloudlab_k8s.Kvstore.Store.{Store, at, del, remove_indexes, remove_each, remove_one_index}
use cloudlab_k8s.Kvstore.File.{save, save_lines, restore}
use cloudlab_k8s.Kvstore.File.Roundtrip.{IsSavable, IsRestored, restore-save}
use cloudlab_k8s.Kvstore.Registry.{watch_one, watch_pass}

-- The store's file, if the watcher has nothing to write, restores to the store.
pub record IsSaved (b : Bool) (content : Option Text) (s : Store) : Type 0 where
  pub file :
      s.changed ≡ false
      → (t : Store) → IsRestored b s (restore t content b).0 × ((restore t content b).1 ≡ true)

module _ {ℓ} {Disk : Type ℓ} (visit : Store → Map Text (List Text))
    (write_file : Text → Text → Disk → Disk) where
  watch_one_changed :
      (name : Text) (s : Store) (disk : Disk)
      → s.changed ≡ true
      → watch_one visit write_file name s disk
        ≡ (record s { changed = false }, write_file name (save_lines (visit s)) disk)
  unfolding watch_one save
  watch_one_changed name s disk h = ground arith

  watch_one_clean :
      (name : Text) (s : Store) (disk : Disk)
      → s.changed ≡ false
      → watch_one visit write_file name s disk ≡ (s, disk)
  unfolding watch_one
  watch_one_clean name s disk h = ground arith

module _ {ℓ} {Disk : Type ℓ} (visit : Store → Map Text (List Text))
    (write_file : Text → Text → Disk → Disk) (read_file : Text → Disk → Option Text)
    (read-write : (n c : Text) (d : Disk) → read_file n (write_file n c d) ≡ some c) where
  -- Whether the store had changed or not, after the watcher's visit its file restores to it and it
  -- has nothing left to write. The map is visited in some order, what it holds can be saved, a
  -- write to the disk can be read back, and an unchanged store had such a file before.
  pub watch_one-IsSaved :
      (b : Bool) (name : Text) (s : Store) (disk : Disk)
      → Enumerates (visit s) s.table
      → IsSavable (visit s)
      → IsSaved b (read_file name disk) s
      → IsSaved b
          (read_file name (watch_one visit write_file name s disk).1)
          (watch_one visit write_file name s disk).0
        × ((watch_one visit write_file name s disk).0.changed ≡ false)
  watch_one-IsSaved b name s disk e h k = elim (Bool-cases s.changed) [
    | inl dirty ↦
        rw (watch_one_changed visit write_file name s disk dirty) (
          record { file = λ _ t. rw (read-write name (save_lines (visit s)) disk) (again t) },
          refl,
        )
    | inr clean ↦ rw (watch_one_clean visit write_file name s disk clean) (k, clean)
  ]
    where
      again :
          (t : Store)
          → IsRestored b
              (record s { changed = false })
              (restore t (some (save_lines (visit s))) b).0
            × ((restore t (some (save_lines (visit s))) b).1 ≡ true)
      again t = unfold save in restore-save (record s { changed = false }) t (visit s) b e h

changed-remove_one : (s : Store) (p x : Text) → (remove_one_index s p x).changed ≡ s.changed
unfolding remove_one_index
changed-remove_one s p x = ground arith

changed-remove_each :
    (s : Store) (p : Text) (xs : List Text) → (remove_each s p xs).changed ≡ s.changed
unfolding remove_each
changed-remove_each s p [] = refl
changed-remove_each s p (x ∷ xs) =
    changed-remove_each (remove_one_index s p x) p xs ∙ changed-remove_one s p x

changed-del : (s : Store) (p : Text) → (del s p).changed ≡ s.changed
unfolding del remove_indexes
changed-del s p = ground (arith, changed-remove_each s p (at p s.table))

module _ {ℓ} {Disk : Type ℓ} (visit : Store → Map Text (List Text))
    (write_file : Text → Text → Disk → Disk) (read_file : Text → Disk → Option Text) where
  -- Del on a store whose file is up to date, then the watcher's visit, then a restart: the store
  -- restored from the file has for every key, the deleted one too, the values of before the Del.
  del_undone :
      (b : Bool) (name p : Text) (s t : Store) (disk : Disk) (k : Text)
      → s.changed ≡ false
      → IsSaved b (read_file name disk) s
      → lookup k
          (restore t (read_file name (watch_one visit write_file name (del s p) disk).1) b).0.table
        ≡ lookup k s.table
  del_undone b name p s t disk k clean saved =
      rw (watch_one_clean visit write_file name (del s p) disk (changed-del s p ∙ clean))
        ((saved.file clean t).0.same k)

-- The store at `p`, if there is one, has nothing to write.
abbrev pub unchanged_at : List Store → ℕ → Bool
unchanged_at stores p = elim (get_elem? stores p) [ none ↦ true | some s ↦ not s.changed ]

unchanged_at-none :
    (stores : List Store) (p : ℕ) → get_elem? stores p ≡ none → unchanged_at stores p ≡ true
unchanged_at-none stores p h = ground arith

unchanged_at-set_self :
    (stores : List Store) (p : ℕ) (s : Store)
    → s.changed ≡ false
    → unchanged_at (set stores p s) p ≡ true
unchanged_at-set_self [] p s h = refl
unchanged_at-set_self (x ∷ stores) zero s h = ground arith
unchanged_at-set_self (x ∷ stores) (suc p) s h = unchanged_at-set_self stores p s h

unchanged_at-set :
    (stores : List Store) (p q : ℕ) (s : Store)
    → s.changed ≡ false
    → unchanged_at stores q ≡ true
    → unchanged_at (set stores p s) q ≡ true
unchanged_at-set [] p q s h k = refl
unchanged_at-set (x ∷ stores) zero zero s h k = ground arith
unchanged_at-set (x ∷ stores) zero (suc q) s h k = k
unchanged_at-set (x ∷ stores) (suc p) zero s h k = k
unchanged_at-set (x ∷ stores) (suc p) (suc q) s h k = unchanged_at-set stores p q s h k

-- Is the pointer one that the map of watched stores holds?
abbrev pub Watched : ℕ → Map Text ℕ → Type 0
Watched p [] = ⊥
Watched p ((name, q) ∷ order) = (p ≡ q) ⊎ Watched p order

module _ {ℓ} {Disk : Type ℓ} (visit : Store → Map Text (List Text))
    (write_file : Text → Text → Disk → Disk) where
  changed-watch_one :
      (name : Text) (s : Store) (disk : Disk)
      → (watch_one visit write_file name s disk).0.changed ≡ false
  unfolding watch_one save
  changed-watch_one name s disk = ground arith

  pass_keeps :
      (order : Map Text ℕ) (stores : List Store) (disk : Disk) (q : ℕ)
      → unchanged_at stores q ≡ true
      → unchanged_at (watch_pass visit write_file order stores disk).0 q ≡ true
  unfolding watch_pass
  pass_keeps [] stores disk q h = h
  pass_keeps ((name, p) ∷ order) stores disk q h = elim (Option-cases (get_elem? stores p)) [
    | inl missing ↦ rw (missing, watch_pass) (pass_keeps order stores disk q h)
    | inr (s, found) ↦
        rw (found, watch_pass)
          (pass_keeps order (set stores p (watch_one visit write_file name s disk).0)
            (watch_one visit write_file name s disk).1 q
            (unchanged_at-set stores p q _ (changed-watch_one name s disk) h))
  ]

  -- After a pass, in whatever order it visits the watched stores, none of them has anything to
  -- write.
  watch_pass-unchanged :
      (order : Map Text ℕ) (stores : List Store) (disk : Disk) (p : ℕ)
      → Watched p order
      → unchanged_at (watch_pass visit write_file order stores disk).0 p ≡ true
  unfolding watch_pass
  watch_pass-unchanged [] stores disk p w = absurd w
  watch_pass-unchanged ((name, q) ∷ order) stores disk p w =
      elim (Option-cases (get_elem? stores q)) [
        | inl missing ↦
            rw (missing, watch_pass)
              (elim w [
                | inl e ↦ pass_keeps order stores disk p (rw e (unchanged_at-none stores q missing))
                | inr later ↦ watch_pass-unchanged order stores disk p later
              ])
        | inr (s, found) ↦
            let (s', disk') = watch_one visit write_file name s disk in
            rw (found, watch_pass)
              (elim w [
                | inl e ↦
                    pass_keeps order (set stores q s') disk' p
                      (rw e (unchanged_at-set_self stores q s' (changed-watch_one name s disk)))
                | inr later ↦ watch_pass-unchanged order (set stores q s') disk' p later
              ])
      ]
