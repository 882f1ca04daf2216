-- ===== src/Kvstore/File/Ending.antt =====
-- The loop of Restore in proxy/internal/pkg/kvstore/store.go comes to an end.
use cloudlab_k8s.Prelude.{
  ℕ, zero, suc, ◌≤◌, ◌≡◌, true, false, Bool-cases, inl, inr, [], ◌∷◌, Text, length, arith,
}
use cloudlab_k8s.Kvstore.Text.{read_line}
use cloudlab_k8s.Kvstore.Store.{Store}
use cloudlab_k8s.Kvstore.File.{restore_line, restore_loop}
use cloudlab_k8s.Kvstore.File.Roundtrip.{length-rest-lt}

-- The finite runs of the loop, by its conditions alone: `buffer.Len() > 0` fails, or ReadString meets
-- the end of the buffer and the loop breaks behind the line, or it goes on with the bytes left.
pub data RunsTo : Text → Store → Store → Type 0 where
  nothing_left : (s : Store) → RunsTo [] s s
  broken_off :
      (c : ℕ) (buffer : Text) (s : Store)
      → (read_line (c ∷ buffer)).eof ≡ true
      → RunsTo (c ∷ buffer) s (restore_line s (read_line (c ∷ buffer)).text)
  gone_on :
      (c : ℕ) (buffer : Text) (s t : Store)
      → (read_line (c ∷ buffer)).eof ≡ false
      → RunsTo (read_line (c ∷ buffer)).rest (restore_line s (read_line (c ∷ buffer)).text) t
      → RunsTo (c ∷ buffer) s t

-- The loop of Restore ends by its own conditions on every buffer and store: it has a finite run, and
-- with a bound on its rounds that is at least the number of bytes the model returns the store at the
-- end of that run, never one cut short by the bound.
pub restore_loop-RunsTo :
    (fuel : ℕ) (buffer : Text) (s : Store)
    → length buffer ≤ fuel
    → RunsTo buffer s (restore_loop fuel buffer s)
unfolding restore_loop
restore_loop-RunsTo zero [] s h = nothing_left s
restore_loop-RunsTo zero (c ∷ buffer) s h = absurd (omega arith)
restore_loop-RunsTo (suc fuel) [] s h = nothing_left s
restore_loop-RunsTo (suc fuel) (c ∷ buffer) s h =
    let line = read_line (c ∷ buffer) in
    let s1 = restore_line s line.text in
    elim (Bool-cases line.eof) [
      | inl last ↦ rw last (broken_off c buffer s last)
      | inr more ↦ rw more (
          gone_on c buffer s _ more
            (restore_loop-RunsTo fuel line.rest s1 (omega (arith, length-rest-lt c buffer))))
    ]
