-- ===== src/Smoke/Main.antt =====
-- smoke/fixture.c, `main`. `fprintf` of the usage is `report`; the value is what `main` returns.
use ld_preload.Prelude.{ℕ, List, [], ◌∷◌, ◌++◌, Bytes, codes, if◌then◌else◌}
use ld_preload.Program.{Program, done, ◌>>◌}
use ld_preload.Smoke.{line, bytes_eq, does}
use ld_preload.Smoke.Environment.{Outside, Frame}
use ld_preload.Smoke.Absent.{run_missing, run_xattr}
use ld_preload.Smoke.Basic.{run_basic, run_metadata}
use ld_preload.Smoke.Descriptors.{run_fd_semantics, run_fd_exec_check}
use ld_preload.Smoke.Passthrough.{run_passthrough, run_failopen}
use ld_preload.Smoke.Rewrite.{run_rewrite}

module _ {W : Type 0} (o : Outside W) (f : Frame) where
  abbrev pub usage : Bytes → Program W ℕ
  usage message = do does (o.report (line message [])); done 2

  abbrev pub after : Program W (Unit {0}) → Program W ℕ
  after m = do m; done 0

  -- `argc != 4`, and `argc != 5` for the second.
  unfoldable pub two_arguments :
      (Bytes → Bytes → Program W (Unit {0})) → Bytes → List Bytes → Program W ℕ
  two_arguments scenario message (a ∷ b ∷ []) = after (scenario a b)
  two_arguments scenario message _ = usage message

  unfoldable pub three_arguments :
      (Bytes → Bytes → Bytes → Program W (Unit {0})) → Bytes → List Bytes → Program W ℕ
  three_arguments scenario message (a ∷ b ∷ c ∷ []) = after (scenario a b c)
  three_arguments scenario message _ = usage message

  unfoldable pub dispatch : Bytes → Bytes → List Bytes → Program W ℕ
  dispatch argv0 scenario args =
      if bytes_eq scenario (codes "basic")
      then after (run_basic o f)
      else if bytes_eq scenario (codes "metadata")
      then after (run_metadata o f)
      else if bytes_eq scenario (codes "missing")
      then after (run_missing o f)
      else if bytes_eq scenario (codes "xattr")
      then after (run_xattr o f)
      else if bytes_eq scenario (codes "passthrough")
      then two_arguments (run_passthrough o f)
          (codes "usage: " ++ argv0 ++ codes " passthrough <source-root> <target-root>") args
      else if bytes_eq scenario (codes "failopen")
      then after (run_failopen o f)
      else if bytes_eq scenario (codes "rewrite")
      then three_arguments (run_rewrite o f)
          (codes "usage: " ++ argv0 ++ codes " rewrite <source-root> <target-root> <sibling-root>")
          args
      else if bytes_eq scenario (codes "fd-semantics")
      then two_arguments (run_fd_semantics o f argv0)
          (codes "usage: " ++ argv0 ++ codes " fd-semantics <source-root> <target-root>") args
      else if bytes_eq scenario (codes "fd-exec-check")
      then two_arguments (λ keep cloexec. run_fd_exec_check o f (o.atoi keep) (o.atoi cloexec))
          (codes "usage: " ++ argv0 ++ codes " fd-exec-check <keep-fd> <cloexec-fd>") args
      else usage (codes "unknown scenario: " ++ scenario)

  abbrev scenarios : Bytes → Bytes
  scenarios argv0 =
      codes "usage: "
      ++ argv0
      ++ codes
          " <basic|metadata|missing|passthrough|failopen|rewrite|xattr|fd-semantics|fd-exec-check> [args]"

  -- `argc` is the length of `argv`. For a null pointer `%s` prints `(null)`.
  unfoldable pub main : List Bytes → Program W ℕ
  main [] = usage (scenarios (codes "(null)"))
  main (argv0 ∷ []) = usage (scenarios argv0)
  main (argv0 ∷ scenario ∷ args) = dispatch argv0 scenario args
