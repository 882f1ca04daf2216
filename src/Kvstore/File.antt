-- ===== src/Kvstore/File.antt =====
-- Save and Restore of proxy/internal/pkg/kvstore/store.go: a store as the text of its file.
pub mod Roundtrip
pub mod Ending
use cloudlab_k8s.Prelude.{
  ℕ, zero, suc, Bool, true, false, Option, none, some, List, [], ◌∷◌, ◌++◌, map, Text, Map, length,
  if◌then◌else◌,
}
use cloudlab_k8s.Kvstore.Text.{Line, separator, newline, join, split, trim, read_line}
use cloudlab_k8s.Kvstore.Store.{Store, put_values}

-- One entry of the map as a line.
unfoldable pub save_line : Text → List Text → Text
save_line k v = k ++ separator ∷ (join v ++ newline ∷ [])

-- The loop of Save, over the entries in the order that the run-time chose.
unfoldable pub save_lines : Map Text (List Text) → Text
save_lines [] = []
save_lines ((k, v) ∷ order) = save_line k v ++ save_lines order

-- The store after Save, and the bytes that it hands to WriteFile.
unfoldable pub save : Map Text (List Text) → Store → Store × Text
save order s = (record s { changed = false }, save_lines order)

-- `s._putValues(parts[0], parts[1:])`, or the line is skipped.
unfoldable pub restore_parts : Store → List Text → Store
restore_parts s [] = s
restore_parts s (part ∷ []) = s
restore_parts s (part ∷ value ∷ values) = put_values s part (value ∷ values)

-- What Restore does with one line.
unfoldable pub restore_line : Store → Text → Store
restore_line s [] = s
restore_line s (c ∷ line) = restore_parts s (map trim (split (c ∷ line)))

-- The loop of Restore, on fuel.
unfoldable pub restore_loop : ℕ → Text → Store → Store
restore_loop zero buffer s = s
restore_loop (suc fuel) [] s = s
restore_loop (suc fuel) (c ∷ buffer) s =
    let line = read_line (c ∷ buffer) in
    let s1 = restore_line s line.text in
    let next = restore_loop fuel line.rest s1 in if line.eof then s1 else next

-- Restore with the result of ReadFile, which is `none` where the file could not be read. The second
-- part says that Restore returned no error.
unfoldable pub restore : Store → Option Text → Bool → Store × Bool
restore s none build_index = (s, false)
restore s (some content) build_index =
    let cleared : Store = record {
      table = [];
      index = [];
      build_index = build_index;
      changed = s.changed;
    } in
    let loaded = restore_loop (length content) content cleared in
    (record loaded { changed = false }, true)
