-- ===== src/Examples/Programs.antt =====
-- The fixture at concrete arguments.
use ld_preload.Prelude.{ℕ, List, [], ◌∷◌, some, ◌≡◌, refl, arith, Bytes, codes, ok}
use ld_preload.Examples.World.{small_libc, fresh, settled, from_to, from_to-IsSound}
use ld_preload.Interpose.Dispatch.{interpose}
use ld_preload.Interpose.Exact.{interpose_exact}
use ld_preload.Interpose.Forwarding.{forward}
use ld_preload.Libc.{Call}
use ld_preload.Path.Clean.{path_max}
use ld_preload.Path.Compose.{clean_and_substitute}
use ld_preload.Path.Translate.{translate, Translates, clean_and_substitute-Translates}
use ld_preload.Path.Normal.{clean, normalise, resolve, names}
use ld_preload.Process.Laws.{Runs, disabled-IsSound}
use ld_preload.Program.{Ending, run}
use ld_preload.Program.Live.{Returns, run-Returns}
use ld_preload.Program.Redirected.{redirected, run-redirected}
use ld_preload.Program.Transparent.{Any, as_plain, run-eq-plain}
use ld_preload.Smoke.{write_file_exact, payload}
use ld_preload.Smoke.Descriptors.{run_fd_semantics}
use ld_preload.Smoke.Helpers.{write_file_exact-Each}
use ld_preload.Smoke.Shared.{CanShare, SendsTree, run_fd_semantics-eq-target}
use ld_preload.Smoke.Writes.{Writes, write_file_exact-Writes}
use ld_preload.Examples.Fixture.{
  scripted, scripted-IgnoresMode, scripted-IsLibc, outside, frame, unrewritten,
  unrewritten-IsSettled, settled-IsSettled, notes, notes-short, write_answers,
}

run-eq-plain_example :
    run (scripted write_answers) (write_file_exact outside notes payload) unrewritten
    ≡ ok (as_plain (scripted write_answers) (write_file_exact outside notes payload) unrewritten)
run-eq-plain_example =
    run-eq-plain (scripted write_answers) (scripted-IgnoresMode write_answers) unrewritten
      (write_file_exact-Each outside notes payload (tt, refl) (λ fd. ((tt, refl), (tt, refl))))
      unrewritten-IsSettled refl

run-redirected_example :
    run (scripted write_answers) (write_file_exact outside notes payload) settled
    ≡ ok (
        as_plain
          (scripted write_answers)
          (redirected from_to (write_file_exact outside notes payload))
          settled)
run-redirected_example =
    run-redirected (scripted write_answers) settled
      (write_file_exact-Each outside notes payload (notes-short, refl)
        (λ fd. ((tt, refl), (tt, refl))))
      settled-IsSettled from_to-IsSound

run-Returns_example :
    Runs
      (λ e q. Returns Any e)
      (run (scripted write_answers) (write_file_exact outside notes payload))
      fresh
run-Returns_example =
    run-Returns (scripted write_answers) (scripted-IsLibc write_answers)
      (write_file_exact-Each outside notes payload notes-short.0 (λ fd. (tt, tt))) fresh
      disabled-IsSound

interpose_exact_example :
    interpose small_libc (Call.rename (some notes) (some (codes "/from/../x"))) settled
    ≡ forward small_libc
        (Call.rename (some (codes "/to/notes")) (some (codes "/from/../x")))
        settled
unfolding translate clean normalise resolve names
interpose_exact_example =
    interpose_exact small_libc settled refl from_to-IsSound
      (Call.rename (some notes) (some (codes "/from/../x")))
      ((notes-short, refl), ((ground arith, omega arith), refl))

clean_and_substitute-Translates_example :
    Translates from_to notes (clean_and_substitute from_to notes path_max)
clean_and_substitute-Translates_example =
    clean_and_substitute-Translates from_to notes from_to-IsSound.measured notes-short.0
      notes-short.1

-- The roots of the scenario.
abbrev source_root : Bytes
source_root = codes "/from/a"

abbrev target_root : Bytes
target_root = codes "/to/a"

tree_sent : SendsTree from_to source_root target_root
unfolding translate clean normalise resolve names
tree_sent = record {
  source_fits = (ground arith, omega arith);
  target_fits = (ground arith, omega arith);
  tree_fits = (ground arith, omega arith);
  sends = refl;
  stays = refl;
  tree_stays = refl;
}

settled-CanShare : CanShare settled.real
settled-CanShare = record {
  writes = record { creat = refl; write = refl; close = refl };
  mkdir = refl;
  open_path = refl;
  read = refl;
  pread = refl;
}

-- mkdir, creat, write, close, open, close, open, pread, two opens and three closes.
abbrev fd_answers : List ℕ
fd_answers = 0 ∷ 3 ∷ 20 ∷ 0 ∷ 3 ∷ 0 ∷ 4 ∷ 20 ∷ 5 ∷ 6 ∷ 0 ∷ 0 ∷ 0 ∷ []

run_fd_semantics-eq-target_example :
    run
      (scripted fd_answers)
      (run_fd_semantics outside frame (codes "fixture") source_root target_root)
      settled
    ≡ ok (
        as_plain
          (scripted fd_answers)
          (run_fd_semantics outside frame (codes "fixture") target_root target_root)
          settled)
run_fd_semantics-eq-target_example =
    run_fd_semantics-eq-target outside (scripted fd_answers) frame (codes "fixture") source_root
      target_root settled (scripted-IgnoresMode fd_answers) tree_sent settled-IsSettled
      settled-CanShare from_to-IsSound

write_file_exact-Writes_example :
    (e : Ending (Unit {0}) × ℕ) × (run
        (scripted write_answers)
        (write_file_exact outside (codes "/from/x") payload)
        settled
      ≡ ok (e.0, record settled { world = e.1 }))
    × Writes outside (scripted write_answers) (codes "/to/x") payload 0 e
unfolding translate clean normalise resolve names
write_file_exact-Writes_example =
    write_file_exact-Writes outside (scripted write_answers) (codes "/from/x") (codes "/to/x")
      payload settled settled-IsSettled settled-CanShare.writes from_to-IsSound
      (ground arith, omega arith) refl
