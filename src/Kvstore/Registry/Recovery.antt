-- ===== src/Kvstore/Registry/Recovery.antt =====
-- A pass of the watcher and then a restart from the files.
use cloudlab_k8s.Prelude.{
  ℕ, ◌≡◌, ◌∙◌, ap, true, false, Option, some, List, [], ◌∷◌, ◌++◌, Text, text_key, ◌==◌, Map,
  lookup, Distinct, get_elem?,
}
use cloudlab_k8s.Kvstore.Store.{Store}
use cloudlab_k8s.Kvstore.Registry.{
  Registry, directory, zero_store, indexed_store, watch_pass, restart_store,
}
use cloudlab_k8s.Kvstore.Registry.Watch.Pass.{AreSeparate, IsWatched, IsPassed, watch_pass-IsPassed}
use cloudlab_k8s.Kvstore.Registry.Restart.{
  files, ReadsBack, AllReadBack, IsBack, restart_store-IsBack,
}

module _ {Disk : Type 0} (visit : Store → Map Text (List Text))
    (write_file : Text → Text → Disk → Disk) (read_file : Text → Disk → Option Text)
    (read-write : (n c : Text) (d : Disk) → read_file n (write_file n c d) ≡ some c)
    (read-write_other : (n m c : Text) (d : Disk)
      → (n == m) ≡ false
      → read_file m (write_file n c d) ≡ read_file m d)
    (dir : Text) where
  -- The stores under their names are those that the registry watches.
  abbrev pub AllWatched : Map Text ℕ → List Store → Disk → Map Text Store → Type 0
  AllWatched order stores disk [] = Unit
  AllWatched order stores disk ((name, s) ∷ rest) =
      ((p : ℕ) × (lookup name order ≡ some p) × (get_elem? stores p ≡ some s))
      × IsWatched visit write_file read_file read-write read-write_other
          (indexed_store (dir ++ name)) (read_file name disk) s
      × AllWatched order stores disk rest

  passed-ReadsBack :
      (content : Text → Option Text) (name : Text) (s : Store) (after : Option Store)
      → IsPassed visit write_file read_file read-write read-write_other
          (indexed_store (dir ++ name))
          (content name)
          s
          after
      → ReadsBack content dir name s
  passed-ReadsBack content name s after p =
      let (restored, ok) = p.file.file p.clean zero_store in
      (
        record {
          same = λ k. restored.same k ∙ ap (lookup k) p.table;
          built = restored.built;
          consistent = restored.consistent;
          unchanged = restored.unchanged;
        },
        ok,
      )

  pass-AllReadBack :
      (order : Map Text ℕ) (stores : List Store) (disk : Disk) (walked : Map Text Store)
      → AreSeparate order
      → AllWatched order stores disk walked
      → AllReadBack (λ n. read_file n (watch_pass visit write_file order stores disk).1) dir walked
  pass-AllReadBack order stores disk [] sep w = tt
  pass-AllReadBack order stores disk ((name, s) ∷ walked) sep w =
      let (p, l, g) = w.0 in
      (
        passed-ReadsBack (λ n. read_file n (watch_pass visit write_file order stores disk).1) name s
            _
            (watch_pass-IsPassed visit write_file read_file read-write read-write_other
              (indexed_store (dir ++ name)) order stores disk name p s sep l g w.1),
        pass-AllReadBack order stores disk walked sep w.2,
      )

  -- A pass of the watcher, in whatever order, and then a restart that walks the files in whatever
  -- order: RestartStore succeeds, and every watched store is back under its name, with the values of
  -- each key as they were before the pass, an index in step with them if and only if the file's name
  -- asks for one, and nothing to write. The watched stores have distinct names and pointers; the map of each is visited
  -- in some order, what it holds can be saved, and its file was up to date if it had nothing to write;
  -- a write to the disk can be read back and leaves other files alone.
  pub watch_pass-restart_store :
      (order : Map Text ℕ) (stores : List Store) (disk : Disk) (walked : Map Text Store)
      (r : Registry) (name : Text) (s : Store)
      → AreSeparate order
      → AllWatched order stores disk walked
      → Distinct walked
      → lookup name walked ≡ some s
      → ((restart_store r (
            directory
            ∷ files
                (λ n. read_file n (watch_pass visit write_file order stores disk).1)
                dir
                walked)).1
          ≡ true)
        × IsBack
            (λ n. read_file n (watch_pass visit write_file order stores disk).1)
            dir
            (restart_store r (
              directory
              ∷ files
                  (λ n. read_file n (watch_pass visit write_file order stores disk).1)
                  dir
                  walked)).0
            name
            s
  watch_pass-restart_store order stores disk walked r name s sep w d l =
      restart_store-IsBack (λ n. read_file n (watch_pass visit write_file order stores disk).1) dir
        walked r name s (pass-AllReadBack order stores disk walked sep w) d l
