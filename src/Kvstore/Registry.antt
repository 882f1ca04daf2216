-- ===== src/Kvstore/Registry.antt =====
-- The stores of the process (proxy/internal/pkg/kvstore/store.go): the map of watched stores, how a
-- store is made, found and read back, and the watcher's pass. A store is shared by pointer: a
-- pointer is a position in the list of all stores that were ever made.
pub mod Names
pub mod Watch
pub mod Restart
pub mod Recovery
pub mod Watcher
use cloudlab_k8s.Prelude.{
  ℕ, zero, suc, ◌-◌, Bool, true, false, not, ◌&&◌, Option, none, some, List, [], ◌∷◌, ◌++◌, Text,
  text_key, ◌==◌, Map, lookup, insert, length, drop, get_elem?, set, leb, if◌then◌else◌,
}
use cloudlab_k8s.Kvstore.Store.{Store, new}
use cloudlab_k8s.Kvstore.File.{save, restore}

pub record Registry : Type 0 where
  pub stores : List Store
  -- `watchedSimpleStores`
  pub watched : Map Text ℕ
  -- `storeInitialized`
  pub initialized : Bool

-- ".NoIndex"
abbrev pub no_index : Text
no_index = b'.' ∷ b'N' ∷ b'o' ∷ b'I' ∷ b'n' ∷ b'd' ∷ b'e' ∷ b'x' ∷ []

-- strings.HasSuffix
unfoldable pub has_suffix : Text → Text → Bool
has_suffix s suffix =
    leb (length suffix) (length s) && (drop (length s - length suffix) s == suffix)

unfoldable pub wrap_name : Text → Bool → Text
wrap_name name build_index = if build_index then name else name ++ no_index

unfoldable pub indexed_store : Text → Bool
unfolding has_suffix
indexed_store name = not (has_suffix name no_index)

-- The first call of initFlag.Do makes the directory and starts the watcher; later ones do nothing.
unfoldable pub init_store : Registry → Registry
init_store r = record r { initialized = true }

-- The registry afterwards, and the pointer that NewStore returns.
unfoldable pub new_store : Registry → Text → Bool → Registry × ℕ
unfolding init_store
new_store r name build_index =
    let r1 = init_store r in
    elim (lookup (wrap_name name build_index) r1.watched) [
      | some repo ↦ (r1, repo)
      | none ↦ (
        record r1 {
          stores = r1.stores ++ new build_index ∷ [];
          watched = insert (wrap_name name build_index) (length r1.stores) r1.watched;
        },
        length r1.stores,
      )
    ]

unfoldable pub get_store : Registry → Text → Registry × Option ℕ
unfolding init_store
get_store r name =
    let r1 = init_store r in
    (
      r1,
      elim (lookup (wrap_name name true) r1.watched) [
        | some repo ↦ some repo
        | none ↦ lookup (wrap_name name false) r1.watched
      ],
    )

-- What the walk over the store directory meets: a path that Stat refuses, a directory, or a file
-- with its path, its last part, and its content where ReadFile succeeds.
pub data Entry : Type 0 where
  stat_error : Entry
  directory : Entry
  file : Text → Text → Option Text → Entry

-- The zero value of `store`.
abbrev pub zero_store : Store
zero_store = record { table = []; index = []; build_index = false; changed = false }

-- One call of the walk's function: the registry, and whether the walk goes on.
unfoldable pub restart_entry : Registry → Entry → Registry × Bool
restart_entry r stat_error = (r, false)
restart_entry r directory = (r, true)
restart_entry r (file path base content) =
    let (s, done) = restore zero_store content (indexed_store path) in
    if done
    then (
      record r { stores = r.stores ++ s ∷ []; watched = insert base (length r.stores) r.watched },
      true,
    )
    else (r, false)

unfoldable pub restart_walk : Registry → List Entry → Registry × Bool
restart_walk r [] = (r, true)
restart_walk r (entry ∷ entries) =
    let next = restart_entry r entry in
    let rest = restart_walk next.0 entries in if next.1 then rest else (next.0, false)

unfoldable pub restart_store : Registry → List Entry → Registry × Bool
unfolding init_store
restart_store r entries = restart_walk (init_store r) entries

-- One pass of the watcher. `visit` is the order in which a store's map is visited, and
-- `write_file name content disk` is the disk after WriteFile, whose error is dropped.
module _ {ℓ} {Disk : Type ℓ} (visit : Store → Map Text (List Text))
    (write_file : Text → Text → Disk → Disk) where
  unfoldable pub watch_one : Text → Store → Disk → Store × Disk
  watch_one name s disk =
      if s.changed
      then (let (s', content) = save (visit s) s in (s', write_file name content disk))
      else (s, disk)

  unfoldable pub watch_pass : Map Text ℕ → List Store → Disk → List Store × Disk
  watch_pass [] stores disk = (stores, disk)
  watch_pass ((name, p) ∷ order) stores disk = elim (get_elem? stores p) [
    | none ↦ watch_pass order stores disk
    | some s ↦ let (s', disk') = watch_one name s disk in watch_pass order (set stores p s') disk'
  ]
