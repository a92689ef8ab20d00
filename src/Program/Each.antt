-- ===== src/Program/Each.antt =====
-- What holds of every call that a program makes, and of every result that its function returns.
use ld_preload.Prelude.{ℕ, Option, Bytes, ℤ}
use ld_preload.Libc.{Call}
use ld_preload.Program.{Program, ◌>>=◌}

pub data Each {W A : Type 0} (P : Call → Type 0) (Q : Option ℕ → ℕ → Type 0) (R : A → Type 0)
    : Program W A → Type 0 where
  done : {a : A} → R a → Each P Q R (Program.done a)
  exits : (n : ℕ) → Each P Q R (Program.exits n)
  calls :
      {c : Call} {k : ℤ → Program W A}
      → P c
      → ((r : ℤ) → Each P Q R (k r))
      → Each P Q R (Program.calls c k)
  tells_cwd :
      {buf : Option ℕ} {size : ℕ} {k : Option Bytes → Program W A}
      → Q buf size
      → ((r : Option Bytes) → Each P Q R (k r))
      → Each P Q R (Program.tells_cwd buf size k)
  number :
      {g : W → ℤ × W} {k : ℤ → Program W A}
      → ((r : ℤ) → Each P Q R (k r))
      → Each P Q R (Program.number g k)
  text :
      {g : W → Option Bytes × W} {k : Option Bytes → Program W A}
      → ((r : Option Bytes) → Each P Q R (k r))
      → Each P Q R (Program.text g k)

module _ {W : Type 0} {P : Call → Type 0} {Q : Option ℕ → ℕ → Type 0} where
  pub Each-bind :
      {A B : Type 0} {R : A → Type 0} {S : B → Type 0} {m : Program W A} {f : A → Program W B}
      → Each P Q R m
      → ((a : A) → R a → Each P Q S (f a))
      → Each P Q S (m >>= f)
  unfolding ◌>>=◌
  Each-bind (Each.done r) h = h _ r
  Each-bind (Each.exits n) h = Each.exits n
  Each-bind (Each.calls p k) h = Each.calls p (λ r. Each-bind (k r) h)
  Each-bind (Each.tells_cwd q k) h = Each.tells_cwd q (λ r. Each-bind (k r) h)
  Each-bind (Each.number k) h = Each.number (λ r. Each-bind (k r) h)
  Each-bind (Each.text k) h = Each.text (λ r. Each-bind (k r) h)
