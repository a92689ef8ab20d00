-- ===== src/Program/Lands.antt =====
-- Two programs that move together: what the library makes of a call of the first is what libc
-- makes of the call of the second, and they return the same.
use ld_preload.Prelude.{ℕ, Bool, Option, Bytes, ◌≡◌, ◌∙◌, ap, refl, ℤ, ok}
use ld_preload.Interpose.Dispatch.{interpose}
use ld_preload.Interpose.Kinds.{symbol-redirect}
use ld_preload.Interpose.Exact.{interpose_exact}
use ld_preload.Interpose.Redirect.{redirect, Reaches}
use ld_preload.Libc.{Libc, Call, Symbol, symbol}
use ld_preload.Path.Prefix.{Policy}
use ld_preload.Process.{Process}
use ld_preload.Process.Laws.{IsSound}
use ld_preload.Process.Once.{bind_ok}
use ld_preload.Process.Settled.{Available, IsSettled, IsSettled-world}
use ld_preload.Program.{Program, run, plain, ◌>>=◌}
use ld_preload.Program.Transparent.{as_plain, forward_settled}

pub data Lands {W A : Type 0} (L : Libc W) (real : Symbol → Bool) (policy : Policy)
    : Program W A → Program W A → Type 0 where
  done : (a : A) → Lands L real policy (Program.done a) (Program.done a)
  exits : (n : ℕ) → Lands L real policy (Program.exits n) (Program.exits n)
  calls :
      {c d : Call} {k j : ℤ → Program W A}
      → Reaches c
      → Available real c
      → ((w : W) → L.call (redirect policy c) w ≡ L.call d w)
      → ((r : ℤ) → Lands L real policy (k r) (j r))
      → Lands L real policy (Program.calls c k) (Program.calls d j)
  number :
      {g : W → ℤ × W} {k j : ℤ → Program W A}
      → ((r : ℤ) → Lands L real policy (k r) (j r))
      → Lands L real policy (Program.number g k) (Program.number g j)
  text :
      {g : W → Option Bytes × W} {k j : Option Bytes → Program W A}
      → ((r : Option Bytes) → Lands L real policy (k r) (j r))
      → Lands L real policy (Program.text g k) (Program.text g j)

module _ {W : Type 0} {L : Libc W} {real : Symbol → Bool} {policy : Policy} where
  pub Lands-bind :
      {A B : Type 0} {m n : Program W A} {f g : A → Program W B}
      → Lands L real policy m n
      → ((a : A) → Lands L real policy (f a) (g a))
      → Lands L real policy (m >>= f) (n >>= g)
  unfolding ◌>>=◌
  Lands-bind (done a) h = h a
  Lands-bind (exits n) h = exits n
  Lands-bind (calls reaches found e k) h = calls reaches found e (λ r. Lands-bind (k r) h)
  Lands-bind (number k) h = number (λ r. Lands-bind (k r) h)
  Lands-bind (text k) h = text (λ r. Lands-bind (k r) h)

module _ {W : Type 0} (L : Libc W) where
  interpose_redirected :
      (c : Call) (p : Process W)
      → IsSettled p
      → IsSound p.rewrite_policy
      → Reaches c
      → Available p.real c
      → interpose L c p
        ≡ ok (
          (L.call (redirect p.rewrite_policy c) p.world).0,
          record p { world = (L.call (redirect p.rewrite_policy c) p.world).1 },
        )
  interpose_redirected c p h s reaches found =
      interpose_exact L p h.configured s c reaches
      ∙ forward_settled L (redirect p.rewrite_policy c) p h
          (ap p.real (symbol-redirect p.rewrite_policy c) ∙ found)

  lands :
      {A : Type 0} (real : Symbol → Bool) (policy : Policy) {m n : Program W A}
      → Lands L real policy m n
      → (p : Process W) → p.real ≡ real
      → p.rewrite_policy ≡ policy
      → IsSettled p
      → IsSound p.rewrite_policy
      → run L m p ≡ ok (as_plain L n p)
  unfolding run plain
  lands real policy (done a) p had same h s = refl
  lands real policy (exits n) p had same h s = refl
  lands real policy (calls {c} {d} {k} {j} reaches found e each) p had same h s =
      bind_ok (interpose L c) _ p _ (
        interpose_redirected c p h s reaches (ap (λ g. g (symbol c)) had ∙ found)
        ∙ ap (λ r. ok (r.0, record p { world = r.1 }))
            (ap (λ q. L.call (redirect q c) p.world) same ∙ e p.world))
      ∙ lands real policy (each (L.call d p.world).0) _ had same (IsSettled-world p _ h) s
  lands real policy (number {g} {k} {j} each) p had same h s =
      lands real policy (each (g p.world).0) _ had same (IsSettled-world p _ h) s
  lands real policy (text {g} {k} {j} each) p had same h s =
      lands real policy (each (g p.world).0) _ had same (IsSettled-world p _ h) s

  -- In a settled process, a program that lands on another ends with the library in front of libc
  -- exactly as the other does without it; the static state stays as it is.
  pub run-Lands :
      {A : Type 0} {m n : Program W A}
      → (p : Process W) → Lands L p.real p.rewrite_policy m n
      → IsSettled p
      → IsSound p.rewrite_policy
      → run L m p ≡ ok (as_plain L n p)
  run-Lands p h = lands p.real p.rewrite_policy h p refl refl
