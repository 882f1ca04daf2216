-- ===== src/Kvstore/Registry/Watch/Pass.antt =====
-- A whole pass of the watcher: the file of every watched store.
use cloudlab_k8s.Prelude.{
  lookup-none_cons, lookup-some_cons, ℕ, zero, suc, ◌≡◌, ◌≢◌, refl, sym, ap, ◌∙◌, inl, inr, Bool,
  Bool-cases, false, Option, Option-cases, none, some, List, [], ◌∷◌, arith, Text, text_key, ◌==◌,
  Map, Enumerates, lookup, get_elem?, set,
}
use cloudlab_k8s.Kvstore.Store.{Store}
use cloudlab_k8s.Kvstore.File.{save}
use cloudlab_k8s.Kvstore.File.Roundtrip.{IsSavable}
use cloudlab_k8s.Kvstore.Registry.{watch_one, watch_pass}
use cloudlab_k8s.Kvstore.Registry.Watch.{IsSaved, watch_one-IsSaved}

get_elem?-set_other :
    {A : Type 0} (xs : List A) (p q : ℕ) (x : A) → p ≢ q → get_elem? (set xs p x) q ≡ get_elem? xs q
get_elem?-set_other [] p q x ne = refl
get_elem?-set_other (y ∷ xs) zero zero x ne = absurd (ne refl)
get_elem?-set_other (y ∷ xs) zero (suc q) x ne = refl
get_elem?-set_other (y ∷ xs) (suc p) zero x ne = refl
get_elem?-set_other (y ∷ xs) (suc p) (suc q) x ne =
    get_elem?-set_other xs p q x (λ e. ne (ap suc e))

get_elem?-set_same :
    {A : Type 0} (xs : List A) (p : ℕ) (x y : A)
    → get_elem? xs p ≡ some y
    → get_elem? (set xs p x) p ≡ some x
get_elem?-set_same [] p x y e = cc
get_elem?-set_same (z ∷ xs) zero x y e = refl
get_elem?-set_same (z ∷ xs) (suc p) x y e = get_elem?-set_same xs p x y e

-- The pointer is none of the map's.
abbrev Apart : ℕ → Map Text ℕ → Type 0
Apart p [] = Unit
Apart p ((name, q) ∷ order) = (p ≢ q) × Apart p order

-- Distinct names with distinct pointers.
abbrev pub AreSeparate : Map Text ℕ → Type 0
AreSeparate [] = Unit
AreSeparate ((name, p) ∷ order) = (lookup name order ≡ none) × Apart p order × AreSeparate order

Apart-found :
    (order : Map Text ℕ) (q p : ℕ) (name : Text)
    → Apart q order
    → lookup name order ≡ some p
    → q ≢ p
Apart-found [] q p name a h = absurd (unfold lookup in (ground arith))
Apart-found ((other, r) ∷ order) q p name a h = elim (lookup-some_cons other name r p order h) [
  | inl (e, f) ↦ λ g. a.0 (g ∙ sym f)
  | inr (differs, later) ↦ Apart-found order q p name a.1 later
]

module _ {Disk : Type 0} (visit : Store → Map Text (List Text))
    (write_file : Text → Text → Disk → Disk) (read_file : Text → Disk → Option Text)
    (read-write : (n c : Text) (d : Disk) → read_file n (write_file n c d) ≡ some c)
    (read-write_other : (n m c : Text) (d : Disk)
      → (n == m) ≡ false
      → read_file m (write_file n c d) ≡ read_file m d) where
  watch_one_other :
      (name other : Text) (s : Store) (disk : Disk)
      → (name == other) ≡ false
      → read_file other (watch_one visit write_file name s disk).1 ≡ read_file other disk
  unfolding watch_one save
  watch_one_other name other s disk ne = elim (Bool-cases s.changed) [
    | inl dirty ↦ rw dirty (read-write_other name other _ disk ne)
    | inr clean ↦ rw clean refl
  ]

  watch_one_table :
      (name : Text) (s : Store) (disk : Disk)
      → (watch_one visit write_file name s disk).0.table ≡ s.table
  unfolding watch_one save
  watch_one_table name s disk = ground arith

  -- A pass leaves files and stores that it does not visit as they are.
  pass_file :
      (order : Map Text ℕ) (stores : List Store) (disk : Disk) (name : Text)
      → lookup name order ≡ none
      → read_file name (watch_pass visit write_file order stores disk).1 ≡ read_file name disk
  unfolding watch_pass
  pass_file [] stores disk name h = refl
  pass_file ((other, q) ∷ order) stores disk name h =
      let (differs, rest) = lookup-none_cons other name q order h in
      elim (Option-cases (get_elem? stores q)) [
        | inl missing ↦ rw (missing, watch_pass) (pass_file order stores disk name rest)
        | inr (s, found) ↦
            rw (found, watch_pass)
              (pass_file order (set stores q (watch_one visit write_file other s disk).0)
                  (watch_one visit write_file other s disk).1 name rest
                ∙ watch_one_other other name s disk differs)
      ]

  pass_store :
      (order : Map Text ℕ) (stores : List Store) (disk : Disk) (p : ℕ)
      → Apart p order
      → get_elem? (watch_pass visit write_file order stores disk).0 p ≡ get_elem? stores p
  unfolding watch_pass
  pass_store [] stores disk p a = refl
  pass_store ((other, q) ∷ order) stores disk p a = elim (Option-cases (get_elem? stores q)) [
    | inl missing ↦ rw (missing, watch_pass) (pass_store order stores disk p a.1)
    | inr (s, found) ↦
        rw (found, watch_pass)
          (pass_store order (set stores q (watch_one visit write_file other s disk).0)
              (watch_one visit write_file other s disk).1 p a.1
            ∙ get_elem?-set_other stores q p _ (λ e. a.0 (sym e)))
  ]

  -- The map of the store is visited in some order, what it holds can be saved, and its file is up to
  -- date where it has nothing to write.
  pub record IsWatched (b : Bool) (content : Option Text) (s : Store) : Type 0 where
    pub visited : Enumerates (visit s) s.table
    pub savable : IsSavable (visit s)
    pub saved : IsSaved b content s

  -- A store after the pass: what it held it still holds, it has nothing to write, and its file
  -- restores to it.
  pub record IsPassed (b : Bool) (content : Option Text) (before : Store) (after : Option Store)
      : Type 0 where
    pub store : Store
    pub found : after ≡ some store
    pub table : store.table ≡ before.table
    pub clean : store.changed ≡ false
    pub file : IsSaved b content store

  IsPassed-first :
      (b : Bool) (order : Map Text ℕ) (stores : List Store) (disk : Disk) (name : Text) (p : ℕ)
      (s : Store)
      → lookup name order ≡ none
      → Apart p order
      → get_elem? stores p ≡ some s
      → IsWatched b (read_file name disk) s
      → IsPassed b
          (read_file name (watch_pass visit write_file ((name, p) ∷ order) stores disk).1)
          s
          (get_elem? (watch_pass visit write_file ((name, p) ∷ order) stores disk).0 p)
  unfolding watch_pass
  IsPassed-first b order stores disk name p s n a g w =
      let (s', disk') = watch_one visit write_file name s disk in
      let (saved, clean) =
        watch_one-IsSaved visit write_file read_file read-write b name s disk w.visited w.savable
          w.saved in
      rw (g, watch_pass)
        (record {
          store = s';
          found = pass_store order (set stores p s') disk' p a ∙ get_elem?-set_same stores p s' s g;
          table = watch_one_table name s disk;
          clean = clean;
          file = rw (pass_file order (set stores p s') disk' name n) saved;
        })

  -- A whole pass, over watched stores with distinct names and pointers, in whatever order it visits
  -- them: a watched store holds what it held, has nothing left to write, and its file restores to it.
  -- The store's map is visited in some order, what it holds can be saved, its file was up to date if
  -- it had nothing to write, and a write to the disk can be read back and leaves other files alone.
  pub watch_pass-IsPassed :
      (b : Bool) (order : Map Text ℕ) (stores : List Store) (disk : Disk) (name : Text) (p : ℕ)
      (s : Store)
      → AreSeparate order
      → lookup name order ≡ some p
      → get_elem? stores p ≡ some s
      → IsWatched b (read_file name disk) s
      → IsPassed b
          (read_file name (watch_pass visit write_file order stores disk).1)
          s
          (get_elem? (watch_pass visit write_file order stores disk).0 p)
  unfolding watch_pass
  watch_pass-IsPassed b [] stores disk name p s sep l g w = absurd (unfold lookup in (ground arith))
  watch_pass-IsPassed b ((other, q) ∷ order) stores disk name p s sep l g w =
      elim (lookup-some_cons other name q p order l) [
        | inl (e, f) ↦
            rw (e, f)
              (IsPassed-first b order stores disk name p s (rw e at sep.0) (rw f at sep.1) g w)
        | inr (differs, later) ↦ elim (Option-cases (get_elem? stores q)) [
          | inl missing ↦
              rw (missing, watch_pass)
                (watch_pass-IsPassed b order stores disk name p s sep.2 later g w)
          | inr (t, found) ↦
              rw (found, watch_pass)
                (watch_pass-IsPassed b order
                  (set stores q (watch_one visit write_file other t disk).0)
                  (watch_one visit write_file other t disk).1 name p s sep.2 later
                  (get_elem?-set_other stores q p _ (Apart-found order q p name sep.1 later) ∙ g)
                  (rw (watch_one_other other name t disk differs) w))
        ]
      ]
