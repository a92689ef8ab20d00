-- ===== src/Program/Live.antt =====
-- The ends of a program that calls the exported functions as they have to be called.
use ld_preload.Prelude.{ℕ, ◌≤◌, Option, none, some, Meets, Meets-map}
use ld_preload.Interpose.Callers.{CallOk}
use ld_preload.Interpose.Dispatch.{interpose}
use ld_preload.Interpose.Forwarding.{Forwarded}
use ld_preload.Interpose.Forwards.{interpose-Forwarded}
use ld_preload.Interpose.WorkingDirectory.{getcwd}
use ld_preload.Interpose.WorkingDirectory.Laws.{CwdResult, getcwd-CwdResult}
use ld_preload.Libc.{Libc}
use ld_preload.Path.Clean.{path_max}
use ld_preload.Process.{Process}
use ld_preload.Process.Laws.{
  IsLibc, IsSound, Keeps, Keeps-refl, Keeps-trans, Keeps-world, Runs, Runs-bind,
}
use ld_preload.Program.{Program, Ending, run}
use ld_preload.Program.Each.{Each, done, exits, calls, tells_cwd, number, text}

-- A buffer of at least `size` bytes, and at most PATH_MAX.
abbrev pub CwdOk : Option ℕ → ℕ → Type 0
CwdOk none size = ⊥
CwdOk (some capacity) size = (size ≤ capacity) × (size ≤ path_max)

-- The result that the function of the program returns, if it returns.
abbrev pub Returns : {A : Type 0} → (A → Type 0) → Ending A → Type 0
Returns R (Ending.returned a) = R a
Returns R (Ending.exited n) = Unit

module _ {W : Type 0} (L : Libc W) (l : IsLibc L) where
  moved :
      {A : Type 0} (R : A → Type 0) (m : Program W A) (p : Process W) (w : W)
      → IsSound p.rewrite_policy
      → Runs (λ e q. Returns R e) (run L m) (record p { world = w })
      → Meets ⊥ (λ r. Keeps p r.1 × Returns R r.0) (run L m (record p { world = w }))
  moved R m p w s h =
      Meets-map ⊥ ⊥ _ _ (run L m (record p { world = w })) h (λ e. e)
        (λ r k. (Keeps-trans (Keeps-world p w s) k.0, k.1))

  -- In every sound process, be it initialised or not, over a C library whose strings have no NUL
  -- inside: a program that passes C strings, a mode wherever its flags ask for one and to `getcwd`
  -- a buffer of the size that it tells, at most PATH_MAX, comes to its end with no access outside
  -- an object, whatever the policy. What its function returns meets what holds of all its results,
  -- the policy stays sound and what is initialised stays as it is.
  pub run-Returns :
      {A : Type 0} {R : A → Type 0} {m : Program W A}
      → Each CallOk CwdOk R m
      → (p : Process W) → IsSound p.rewrite_policy
      → Runs (λ e q. Returns R e) (run L m) p
  unfolding run
  run-Returns (done r) p s = (Keeps-refl p s, r)
  run-Returns (exits n) p s = (Keeps-refl p s, tt)
  run-Returns {A} {R} (calls {c} {k} ok_call each) p s =
      Runs-bind (Forwarded L p c) (λ e q. Returns R e) (interpose L c) (λ r. run L (k r)) p
        (interpose-Forwarded L l c p s ok_call) (λ r q sq kept f. run-Returns (each r) q sq)
  run-Returns {A} {R} (tells_cwd {buf = some capacity} {size} {k} fits each) p s =
      Runs-bind (λ r q. CwdResult L size p r q) (λ e q. Returns R e) (getcwd L (some capacity) size)
        (λ r. run L (k r)) p (getcwd-CwdResult L l capacity size fits.0 fits.1 p s)
        (λ r q sq kept f. run-Returns (each r) q sq)
  run-Returns (tells_cwd {buf = none} fits each) p s = absurd fits
  run-Returns {A} {R} (number {g} {k} each) p s =
      moved R (k (g p.world).0) p (g p.world).1 s (run-Returns (each (g p.world).0) _ s)
  run-Returns {A} {R} (text {g} {k} each) p s =
      moved R (k (g p.world).0) p (g p.world).1 s (run-Returns (each (g p.world).0) _ s)
