-- ===== src/Kvstore/Registry/Watcher.antt =====
-- The watcher's loop in startWatcher of proxy/internal/pkg/kvstore/store.go, and GracefulShutdown,
-- which sends what ends it. Between its rounds the rest of the process changes the stores.
use cloudlab_k8s.Prelude.{
  ℕ, ◌≡◌, refl, ap, ◌∙◌, lookup, get_elem?, Option, some, text_key, ◌==◌, Bool, true, false, List,
  [], ◌∷◌, arith, Text, Map, if◌then◌else◌,
}
use cloudlab_k8s.Kvstore.Store.{Store}
use cloudlab_k8s.Kvstore.Registry.{watch_pass}
use cloudlab_k8s.Kvstore.Registry.Watch.Pass.{AreSeparate, IsWatched, IsPassed, watch_pass-IsPassed}

-- What the select of a round receives: the timeout, or what GracefulShutdown sends.
pub data Signal : Type 0 where
  timed_out graceful_shutdown : Signal

abbrev ends : Signal → Bool
ends timed_out = false
ends graceful_shutdown = true

-- A round of the loop with the order in which it visits the watched stores, or a change of the
-- stores by the rest of the process.
pub data Event : Type 0 where
  round : Map Text ℕ → Signal → Event
  change : List Store → Event

pub record Watcher {ℓ} (Disk : Type ℓ) : Type ℓ where
  pub stores : List Store
  pub disk : Disk
  pub exit : Bool

module _ {ℓ} {Disk : Type ℓ} (visit : Store → Map Text (List Text))
    (write_file : Text → Text → Disk → Disk) where
  -- A round passes over the stores in any case, the one that ends the loop as well.
  unfoldable pub watch_event : Event → Watcher Disk → Watcher Disk
  watch_event (change stores) w = record w { stores = stores }
  watch_event (round order signal) w =
      if w.exit
      then w
      else (let (stores, disk) = watch_pass visit write_file order w.stores w.disk in
          record { stores = stores; disk = disk; exit = ends signal })

  unfoldable pub start_watcher : List Event → Watcher Disk → Watcher Disk
  start_watcher [] w = w
  start_watcher (event ∷ events) w = start_watcher events (watch_event event w)

  ended_round :
      (order : Map Text ℕ) (signal : Signal) (w : Watcher Disk)
      → w.exit ≡ true
      → watch_event (round order signal) w ≡ w
  unfolding watch_event
  ended_round order signal w h = ground arith

  -- After the loop has ended, nothing is written.
  ended_writes_nothing :
      (events : List Event) (w : Watcher Disk)
      → w.exit ≡ true
      → (start_watcher events w).disk ≡ w.disk
  unfolding start_watcher watch_event
  ended_writes_nothing [] w h = refl
  ended_writes_nothing (change stores ∷ events) w h =
      ended_writes_nothing events (record w { stores = stores }) h
  ended_writes_nothing (round order signal ∷ events) w h =
      ap (λ v. (start_watcher events v).disk) (ended_round order signal w h)
      ∙ ended_writes_nothing events w h

  -- The round that GracefulShutdown ends passes over the stores once more, and whatever is changed
  -- later, the disk stays as that pass left it.
  graceful_shutdown_lem :
      (order : Map Text ℕ) (events : List Event) (w : Watcher Disk)
      → w.exit ≡ false
      → (start_watcher (round order graceful_shutdown ∷ events) w).disk
        ≡ (watch_pass visit write_file order w.stores w.disk).1
  unfolding start_watcher watch_event
  graceful_shutdown_lem order events w h = rw h (
      ended_writes_nothing events
        (record {
          stores = (watch_pass visit write_file order w.stores w.disk).0;
          disk = (watch_pass visit write_file order w.stores w.disk).1;
          exit = true;
        })
        refl)

module _ {Disk : Type 0} (visit : Store → Map Text (List Text))
    (write_file : Text → Text → Disk → Disk) (read_file : Text → Disk → Option Text)
    (read-write : (n c : Text) (d : Disk) → read_file n (write_file n c d) ≡ some c)
    (read-write_other : (n m c : Text) (d : Disk)
      → (n == m) ≡ false
      → read_file m (write_file n c d) ≡ read_file m d) where
  -- Before the watcher ends on GracefulShutdown it visits every watched store once more: whatever
  -- happens later, on the disk that is left the store's file restores to it, and what it held at the
  -- shutdown it still held after that visit. The watched stores have distinct names and pointers; the
  -- store's map is visited in some order, what it holds can be saved, its file was up to date if it had
  -- nothing to write, and a write to the disk can be read back and leaves other files alone.
  pub graceful_shutdown-IsPassed :
      (b : Bool) (order : Map Text ℕ) (events : List Event) (w : Watcher Disk) (name : Text) (p : ℕ)
      (s : Store)
      → w.exit ≡ false
      → AreSeparate order
      → lookup name order ≡ some p
      → get_elem? w.stores p ≡ some s
      → IsWatched visit write_file read_file read-write read-write_other b (read_file name w.disk) s
      → IsPassed visit write_file read_file read-write read-write_other b
          (read_file name
            (start_watcher visit write_file (round order graceful_shutdown ∷ events) w).disk)
          s
          (get_elem? (watch_event visit write_file (round order graceful_shutdown) w).stores p)
  unfolding watch_event
  graceful_shutdown-IsPassed b order events w name p s h sep l g k =
      rw (graceful_shutdown_lem visit write_file order events w h, h)
        (watch_pass-IsPassed visit write_file read_file read-write read-write_other b order w.stores
          w.disk name p s sep l g k)
