-- ===== src/Program/Transparent.antt =====
-- A program under a library that rewrites nothing.
use ld_preload.Prelude.{ℕ, Bool, true, false, Option, ◌≡◌, ◌∙◌, ap, refl, ok}
use ld_preload.Interpose.Disabled.{HasMode, settle, interpose_disabled}
use ld_preload.Interpose.Kinds.{symbol-settle}
use ld_preload.Interpose.Dispatch.{interpose}
use ld_preload.Interpose.Forwarding.{forward}
use ld_preload.Interpose.WorkingDirectory.{getcwd}
use ld_preload.Interpose.WorkingDirectory.Off.{getcwd_off}
use ld_preload.Libc.{Libc, Call, Symbol, symbol}
use ld_preload.Orig.{minus_one}
use ld_preload.Process.{Process, invoke}
use ld_preload.Process.Once.{bind_ok}
use ld_preload.Process.Settled.{
  Available, IsSettled, IsSettled-world, require_symbol_settled, invoke_eq,
}
use ld_preload.Program.{Program, Ending, run, plain}
use ld_preload.Program.Each.{Each, done, exits, calls, tells_cwd, number, text}

-- `open` and `openat` of libc read no mode that the flags do not ask for.
abbrev pub IgnoresMode : {W : Type 0} → Libc W → Type 0
IgnoresMode {W} L = (c : Call) (w : W) → HasMode c → L.call (settle c) w ≡ L.call c w

abbrev pub Any : {A : Type 0} → A → Type 0
Any a = Unit

-- A call whose real function was found, with a mode wherever its flags ask for one.
abbrev pub ModeAvailable : (Symbol → Bool) → Call → Type 0
ModeAvailable real c = HasMode c × Available real c

-- The real `getcwd` was found.
abbrev pub CwdAvailable : (Symbol → Bool) → Option ℕ → ℕ → Type 0
CwdAvailable real buf size = real Symbol.getcwd ≡ true

module _ {W : Type 0} (L : Libc W) where
  -- What a run of a program without the library leaves, put into a process.
  abbrev pub as_plain : {A : Type 0} → Program W A → Process W → Ending A × Process W
  as_plain m p = let (e, w) = plain L m p.world in (e, record p { world = w })

  pub forward_settled :
      (c : Call) (p : Process W)
      → IsSettled p
      → Available p.real c
      → forward L c p ≡ ok ((L.call c p.world).0, record p { world = (L.call c p.world).1 })
  forward_settled c p h found =
      require_symbol_settled L (symbol c) minus_one (invoke L c) p h found ∙ invoke_eq L c p

  interpose_plain :
      IgnoresMode L
      → (c : Call) (p : Process W) → IsSettled p
      → p.rewrite_policy.enabled ≡ false
      → ModeAvailable p.real c
      → interpose L c p ≡ ok ((L.call c p.world).0, record p { world = (L.call c p.world).1 })
  interpose_plain ignores c p h off m =
      interpose_disabled L p (record { once = h.configured; off = off }) c m.0
      ∙ forward_settled (settle c) p h (ap p.real (symbol-settle c) ∙ m.1)
      ∙ ap (λ r. ok (r.0, record p { world = r.1 })) (ignores c p.world m.0)

  run_plain :
      {A : Type 0} {R : A → Type 0} (real : Symbol → Bool) {m : Program W A}
      → IgnoresMode L
      → Each (ModeAvailable real) (CwdAvailable real) R m
      → (p : Process W) → p.real ≡ real
      → IsSettled p
      → p.rewrite_policy.enabled ≡ false
      → run L m p ≡ ok (as_plain m p)
  unfolding run plain
  run_plain real ignores (done r) p same h off = refl
  run_plain real ignores (exits n) p same h off = refl
  run_plain real ignores (calls {c} {k} m each) p same h off =
      bind_ok (interpose L c) _ p _
        (interpose_plain ignores c p h off (m.0, ap (λ g. g (symbol c)) same ∙ m.1))
      ∙ run_plain real ignores (each (L.call c p.world).0) _ same (IsSettled-world p _ h) off
  run_plain real ignores (tells_cwd {buf} {size} {k} q each) p same h off =
      bind_ok (getcwd L buf size) _ p _
        (getcwd_off L buf size p h (ap (λ g. g Symbol.getcwd) same ∙ q) off)
      ∙ run_plain real ignores (each (L.getcwd size p.world).0) _ same (IsSettled-world p _ h) off
  run_plain real ignores (number {g} {k} each) p same h off =
      run_plain real ignores (each (g p.world).0) _ same (IsSettled-world p _ h) off
  run_plain real ignores (text {g} {k} each) p same h off =
      run_plain real ignores (each (g p.world).0) _ same (IsSettled-world p _ h) off

  -- In a settled process whose policy is disabled, and over a libc whose `open` reads no mode that
  -- the flags do not ask for: a program that passes a mode wherever its flags ask for one, and whose
  -- calls have real functions that were found, ends with the library in front of libc exactly as it
  -- does without.
  pub run-eq-plain :
      {A : Type 0} {R : A → Type 0} {m : Program W A}
      → IgnoresMode L
      → (p : Process W) → Each (ModeAvailable p.real) (CwdAvailable p.real) R m
      → IsSettled p
      → p.rewrite_policy.enabled ≡ false
      → run L m p ≡ ok (as_plain m p)
  run-eq-plain ignores p each h off = run_plain p.real ignores each p refl h off
