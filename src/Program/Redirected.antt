-- ===== src/Program/Redirected.antt =====
-- A program under a library that rewrites: its calls with each path where the policy sends it.
use ld_preload.Prelude.{ℕ, Bool, Option, ◌≡◌, refl, ok}
use ld_preload.Interpose.Redirect.{redirect, Reaches}
use ld_preload.Libc.{Libc, Call, Symbol}
use ld_preload.Path.Prefix.{Policy}
use ld_preload.Process.{Process}
use ld_preload.Process.Laws.{IsSound}
use ld_preload.Process.Settled.{Available, IsSettled}
use ld_preload.Program.{Program, run}
use ld_preload.Program.Transparent.{as_plain}
use ld_preload.Program.Lands.{Lands, run-Lands}
use ld_preload.Program.Each.{Each, done, exits, calls, tells_cwd, number, text}

-- The program that makes the redirected calls itself.
unfoldable pub redirected : {W A : Type 0} → Policy → Program W A → Program W A
redirected policy (Program.done a) = Program.done a
redirected policy (Program.exits n) = Program.exits n
redirected policy (Program.calls c k) =
    Program.calls (redirect policy c) (λ r. redirected policy (k r))
redirected policy (Program.tells_cwd buf size k) =
    Program.tells_cwd buf size (λ r. redirected policy (k r))
redirected policy (Program.number g k) = Program.number g (λ r. redirected policy (k r))
redirected policy (Program.text g k) = Program.text g (λ r. redirected policy (k r))

-- No call of `getcwd`.
abbrev pub NoCwd : Option ℕ → ℕ → Type 0
NoCwd buf size = ⊥

-- A call whose paths the library sends on by themselves, and whose real function was found.
abbrev pub ReachesReal : (Symbol → Bool) → Call → Type 0
ReachesReal real c = Reaches c × Available real c

module _ {W : Type 0} (L : Libc W) where
  Lands-redirected :
      {A : Type 0} {R : A → Type 0} (real : Symbol → Bool) {m : Program W A} (policy : Policy)
      → Each (ReachesReal real) NoCwd R m
      → Lands L real policy m (redirected policy m)
  unfolding redirected
  Lands-redirected real policy (done r) = Lands.done _
  Lands-redirected real policy (exits n) = Lands.exits n
  Lands-redirected real policy (calls reaches each) =
      Lands.calls reaches.0 reaches.1 (λ w. refl) (λ r. Lands-redirected real policy (each r))
  Lands-redirected real policy (tells_cwd q each) = absurd q
  Lands-redirected real policy (number each) =
      Lands.number (λ r. Lands-redirected real policy (each r))
  Lands-redirected real policy (text each) = Lands.text (λ r. Lands-redirected real policy (each r))

  -- In a settled process, a program that makes only calls whose paths the library sends on by
  -- themselves and whose real functions were found, passes a mode wherever its flags ask for one, and does not call `getcwd`, ends with
  -- the library in front of libc exactly as, without it, the program ends that makes the redirected
  -- calls itself; the static state stays as it is.
  pub run-redirected :
      {A : Type 0} {R : A → Type 0} {m : Program W A}
      → (p : Process W) → Each (ReachesReal p.real) NoCwd R m
      → IsSettled p
      → IsSound p.rewrite_policy
      → run L m p ≡ ok (as_plain L (redirected p.rewrite_policy m) p)
  run-redirected p each h s = run-Lands L p (Lands-redirected p.real p.rewrite_policy each) h s
