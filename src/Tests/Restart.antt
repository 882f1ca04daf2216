-- ===== src/Tests/Restart.antt =====
-- The theorems on the restart from files and on the loop of Restore for a store of images.
use cloudlab_k8s.Prelude.{
  ℕ, Bool, false, List, ◌==◌, insert, lookup-insert, get_elem?, ◌≡◌, refl, true, [], ◌∷◌, ◌++◌,
  Text, text_key, Map, lookup, arith,
}
use cloudlab_k8s.Kvstore.Store.{Store}
use cloudlab_k8s.Kvstore.File.{restore_loop}
use cloudlab_k8s.Kvstore.File.Ending.{RunsTo, restore_loop-RunsTo}
use cloudlab_k8s.Kvstore.Registry.{directory, indexed_store, watch_pass, restart_store}
use cloudlab_k8s.Kvstore.Registry.Restart.{files, IsBack}
use cloudlab_k8s.Kvstore.Registry.Watch.Pass.{AreSeparate, IsWatched, IsPassed}
use cloudlab_k8s.Kvstore.Registry.Watcher.{
  Watcher, Event, change, round, timed_out, graceful_shutdown, start_watcher, watch_event,
  graceful_shutdown-IsPassed,
}
use cloudlab_k8s.Kvstore.Registry.Recovery.{watch_pass-restart_store}
use cloudlab_k8s.Tests.Kvstore.{
  cron, Disk, read_disk, read_insert, web, loaded_store, visit_all, images-Enumerates,
  images-IsSavable, no_stores,
}

abbrev slash : Text
slash = b'/' ∷ []

-- Two watched stores, of which neither has a file yet.
abbrev watched_order : Map Text ℕ
watched_order = (web, 0) ∷ (cron, 1) ∷ []

abbrev two_stores : List Store
two_stores = loaded_store ∷ loaded_store ∷ []

read_insert_other :
    (n m c : Text) (d : Disk) → (n == m) ≡ false → read_disk m (insert n c d) ≡ read_disk m d
read_insert_other n m c d ne = rw (lookup-insert n m c d, ne) refl

watched_order-AreSeparate : AreSeparate watched_order
watched_order-AreSeparate =
    (unfold lookup in refl, ((λ e. absurd (omega arith)), tt), (unfold lookup in refl, tt, tt))

loaded-IsWatched :
    (b : Bool) (name : Text)
    → IsWatched visit_all insert read_disk read_insert read_insert_other b
        (read_disk name [])
        loaded_store
loaded-IsWatched b name = record {
  visited = images-Enumerates;
  savable = images-IsSavable;
  saved = record { file = λ h. cc };
}

abbrev disk_after : Disk
disk_after = (watch_pass visit_all insert watched_order two_stores []).1

-- A watcher that runs, and what happens after its last round.
abbrev running : Watcher Disk
running = record { stores = two_stores; disk = []; exit = false }

abbrev later_events : List Event
later_events = change [] ∷ round watched_order timed_out ∷ []

graceful_shutdown-IsPassed_example :
    IsPassed visit_all insert read_disk read_insert read_insert_other true
      (read_disk cron
        (start_watcher visit_all insert
          (round watched_order graceful_shutdown ∷ later_events)
          running).disk)
      loaded_store
      (get_elem?
        (watch_event visit_all insert (round watched_order graceful_shutdown) running).stores
        1)
graceful_shutdown-IsPassed_example =
    graceful_shutdown-IsPassed visit_all insert read_disk read_insert read_insert_other true
      watched_order later_events running cron 1 loaded_store refl watched_order-AreSeparate
      (unfold lookup in refl) refl (loaded-IsWatched true cron)

abbrev walked_stores : Map Text Store
walked_stores = (cron, loaded_store) ∷ (web, loaded_store) ∷ []

watch_pass-restart_store_example :
    ((restart_store no_stores
        (directory ∷ files (λ n. read_disk n disk_after) slash walked_stores)).1
      ≡ true)
    × IsBack
        (λ n. read_disk n disk_after)
        slash
        (restart_store no_stores
          (directory ∷ files (λ n. read_disk n disk_after) slash walked_stores)).0
        web
        loaded_store
watch_pass-restart_store_example =
    watch_pass-restart_store visit_all insert read_disk read_insert read_insert_other slash
      watched_order two_stores [] walked_stores no_stores web loaded_store watched_order-AreSeparate
      (
        (1, unfold lookup in refl, refl),
        loaded-IsWatched (indexed_store (slash ++ cron)) cron,
        ((0, unfold lookup in refl, refl), loaded-IsWatched (indexed_store (slash ++ web)) web, tt),
      )
      (unfold lookup in refl, (unfold lookup in refl, tt)) (unfold lookup in refl)

restore_loop-RunsTo_example :
    RunsTo (web ++ b';' ∷ []) loaded_store (restore_loop 7 (web ++ b';' ∷ []) loaded_store)
restore_loop-RunsTo_example = restore_loop-RunsTo 7 (web ++ b';' ∷ []) loaded_store (omega arith)
