-- ===== src/Kvstore/Registry/Restart.antt =====
-- RestartStore over files that Restore reads back: every store comes back under its name.
use cloudlab_k8s.Prelude.{
  lookup-none_cons, lookup-some_cons, Option, ℕ, zero, suc, ◌≡◌, refl, ◌∙◌, inl, inr, true, false,
  none, some, List, [], ◌∷◌, ◌++◌, arith, Text, text_key, ◌==◌, beq_refl, Map, lookup, insert,
  lookup-insert, Distinct, length, get_elem?,
}
use cloudlab_k8s.Kvstore.Store.{Store}
use cloudlab_k8s.Kvstore.File.{restore}
use cloudlab_k8s.Kvstore.File.Roundtrip.{IsRestored}
use cloudlab_k8s.Kvstore.Registry.{
  Registry, Entry, directory, file, zero_store, indexed_store, init_store, restart_entry,
  restart_walk, restart_store,
}

get_elem?-append :
    {A : Type 0} (xs : List A) (y x : A) (i : ℕ)
    → get_elem? xs i ≡ some x
    → get_elem? (xs ++ y ∷ []) i ≡ some x
get_elem?-append [] y x i h = absurd (ground arith)
get_elem?-append (z ∷ xs) y x zero h = h
get_elem?-append (z ∷ xs) y x (suc i) h = get_elem?-append xs y x i h

get_elem?-append_last :
    {A : Type 0} (xs : List A) (y : A) → get_elem? (xs ++ y ∷ []) (length xs) ≡ some y
get_elem?-append_last [] y = refl
get_elem?-append_last (z ∷ xs) y = get_elem?-append_last xs y

module _ (content : Text → Option Text) (dir : Text) where
  -- The files of the stores in the directory, with what the disk has, as the walk meets them.
  abbrev pub files : Map Text Store → List Entry
  files [] = []
  files ((name, s) ∷ rest) = file (dir ++ name) name (content name) ∷ files rest

  -- Restore of the file reads the store back.
  abbrev pub ReadsBack : Text → Store → Type 0
  ReadsBack name s =
      IsRestored (indexed_store (dir ++ name)) s
        (restore zero_store (content name) (indexed_store (dir ++ name))).0
      × ((restore zero_store (content name) (indexed_store (dir ++ name))).1 ≡ true)

  abbrev pub AllReadBack : Map Text Store → Type 0
  AllReadBack [] = Unit
  AllReadBack ((name, s) ∷ rest) = ReadsBack name s × AllReadBack rest

  -- The registry has a store of the name that was restored from `s`.
  pub record IsBack (r : Registry) (name : Text) (s : Store) : Type 0 where
    pub p : ℕ
    pub watched : lookup name r.watched ≡ some p
    pub restored : Store
    pub stored : get_elem? r.stores p ≡ some restored
    pub is_restored : IsRestored (indexed_store (dir ++ name)) s restored

  -- The registry after the file of a store.
  abbrev read_back : Registry → Text → Registry
  read_back r name =
      let s' = (restore zero_store (content name) (indexed_store (dir ++ name))).0 in
      record r { stores = r.stores ++ s' ∷ []; watched = insert name (length r.stores) r.watched }

  walk_step :
      (r : Registry) (name : Text) (s : Store) (entries : List Entry)
      → ReadsBack name s
      → restart_walk r (file (dir ++ name) name (content name) ∷ entries)
        ≡ restart_walk (read_back r name) entries
  unfolding restart_walk restart_entry
  walk_step r name s entries b = rw b.1 refl

  IsBack-now :
      (r : Registry) (name : Text) (s : Store) → ReadsBack name s → IsBack (read_back r name) name s
  IsBack-now r name s b = record {
    p = length r.stores;
    watched = lookup-insert name name (length r.stores) r.watched ∙ rw (beq_refl name) refl;
    restored = (restore zero_store (content name) (indexed_store (dir ++ name))).0;
    stored = get_elem?-append_last r.stores _;
    is_restored = b.0;
  }

  still-IsBack :
      (r : Registry) (name other : Text) (s : Store)
      → (other == name) ≡ false
      → IsBack r name s
      → IsBack (read_back r other) name s
  still-IsBack r name other s ne b = record {
    p = b.p;
    watched = lookup-insert other name (length r.stores) r.watched ∙ rw ne b.watched;
    restored = b.restored;
    stored = get_elem?-append r.stores _ b.restored b.p b.stored;
    is_restored = b.is_restored;
  }

  stays-IsBack :
      (stores : Map Text Store) (r : Registry) (name : Text) (s : Store)
      → AllReadBack stores
      → lookup name stores ≡ none
      → IsBack r name s
      → IsBack (restart_walk r (files stores)).0 name s
  stays-IsBack [] r name s a l b = unfold restart_walk in b
  stays-IsBack ((other, t) ∷ stores) r name s a l b =
      let (ne, rest) = lookup-none_cons other name t stores l in
      rw (walk_step r other t (files stores) a.0)
        (stays-IsBack stores (read_back r other) name s a.1 rest (still-IsBack r name other s ne b))

  walk-IsBack :
      (stores : Map Text Store) (r : Registry) (name : Text) (s : Store)
      → AllReadBack stores
      → Distinct stores
      → lookup name stores ≡ some s
      → IsBack (restart_walk r (files stores)).0 name s
  walk-IsBack [] r name s a d l = absurd (unfold lookup in (ground arith))
  walk-IsBack ((other, t) ∷ stores) r name s a d l =
      rw (walk_step r other t (files stores) a.0) (elim (lookup-some_cons other name t s stores l) [
        | inl (e, f) ↦
            stays-IsBack stores (read_back r other) name s a.1 (rw e at d.0)
              (rw (← e, ← f) (IsBack-now r other t a.0))
        | inr (ne, rest) ↦ walk-IsBack stores (read_back r other) name s a.1 d.1 rest
      ])

  walk_done :
      (stores : Map Text Store) (r : Registry)
      → AllReadBack stores
      → (restart_walk r (files stores)).1 ≡ true
  walk_done [] r a = unfold restart_walk in refl
  walk_done ((name, s) ∷ stores) r a =
      rw (walk_step r name s (files stores) a.0) (walk_done stores (read_back r name) a.1)

  -- RestartStore on the directory with the files of stores under distinct names, each of which
  -- Restore reads back: it succeeds, and every store is back under its name.
  pub restart_store-IsBack :
      (stores : Map Text Store) (r : Registry) (name : Text) (s : Store)
      → AllReadBack stores
      → Distinct stores
      → lookup name stores ≡ some s
      → ((restart_store r (directory ∷ files stores)).1 ≡ true)
        × IsBack (restart_store r (directory ∷ files stores)).0 name s
  unfolding restart_store restart_walk restart_entry
  restart_store-IsBack stores r name s a d l =
      (walk_done stores (init_store r) a, walk-IsBack stores (init_store r) name s a d l)
