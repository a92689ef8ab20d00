-- ===== src/Examples/Sequences.antt =====
-- A sequence of calls and of changes to the world.
use ld_preload.Prelude.{false, [], ℕ, ◌≡◌, refl, ◌∙◌, ℤ, ok}
use ld_preload.Examples.World.{small_libc, small_libc-IsLibc, settled, from_to, from_to-IsSound}
use ld_preload.Interpose.Callers.{CallOk}
use ld_preload.Interpose.Dispatch.{interpose}
use ld_preload.Interpose.Exact.{interpose_exact}
use ld_preload.Interpose.Forwarding.{forward, Forwarded}
use ld_preload.Interpose.Redirect.{redirect, Reaches}
use ld_preload.Interpose.Steps.{Step, Steps, Steps-interpose}
use ld_preload.Libc.{Call}
use ld_preload.Path.Prefix.{Policy}
use ld_preload.Policy.Stores.{Stored, stores-Stored}
use ld_preload.Process.{Process}
use ld_preload.Process.Laws.{IsSound, Runs}
use ld_preload.Program.Transparent.{forward_settled}

abbrev later : Process ℕ
later = record settled { world = 5 }

abbrev close_call : Call
close_call = Call.close (ℤ.pos 3)

closes : interpose small_libc close_call later ≡ ok (ℤ.pos 7, later)
closes =
    interpose_exact small_libc later refl from_to-IsSound close_call tt
    ∙ forward_settled small_libc close_call later (record { resolved = refl; configured = refl })
        refl

brief_history : Steps small_libc settled later
brief_history =
    Steps.then (Steps.then Steps.start (Step.elsewhere 5)) (Step.called close_call tt closes)

Steps-interpose_example :
    (later.rewrite_policy ≡ from_to)
    × IsSound later.rewrite_policy
    × ((c : Call) → CallOk c → Runs (Forwarded small_libc later c) (interpose small_libc c) later)
    × ((c : Call)
        → Reaches c
        → interpose small_libc c later ≡ forward small_libc (redirect from_to c) later)
Steps-interpose_example =
    Steps-interpose small_libc small_libc-IsLibc brief_history from_to-IsSound refl

-- A policy as the static object is at the start.
abbrev zeroed : Policy
zeroed = record { enabled = false; from_len = 0; to_len = 0; from = []; to = [] }

stores-Stored_example : Stored (small_libc.getenv 0) zeroed
stores-Stored_example = stores-Stored (small_libc.getenv 0) zeroed refl
