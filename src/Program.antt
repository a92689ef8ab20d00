-- ===== src/Program.antt =====
-- A program that runs with the library in front of libc: it calls exported functions and, between
-- the calls, other code of its own, of libc and of the kernel.
pub mod Each
pub mod Transparent
pub mod Lands
pub mod Redirected
pub mod Live
use ld_preload.Prelude.{ℕ, Option, Bytes, ℤ, ok}
use ld_preload.Interpose.Dispatch.{interpose}
use ld_preload.Interpose.WorkingDirectory.{getcwd}
use ld_preload.Libc.{Libc, Call}
use ld_preload.Process.{Process, M}
use ld_preload.Process as Process

-- `number` and `text` run code that the library does not interpose, and that answers a number or,
-- for a pointer to a string, the string. `exits` is `exit` or `_exit`.
pub data Program (W A : Type 0) : Type 0 where
  done : A → Program W A
  exits : ℕ → Program W A
  calls : Call → (ℤ → Program W A) → Program W A
  tells_cwd : Option ℕ → ℕ → (Option Bytes → Program W A) → Program W A
  number : (W → ℤ × W) → (ℤ → Program W A) → Program W A
  text : (W → Option Bytes × W) → (Option Bytes → Program W A) → Program W A

infixl 5 ◌>>=◌ ◌>>◌
unfoldable pub ◌>>=◌ : {W A B : Type 0} → Program W A → (A → Program W B) → Program W B
done a >>= f = f a
exits n >>= f = exits n
calls c k >>= f = calls c (λ r. k r >>= f)
tells_cwd buf size k >>= f = tells_cwd buf size (λ r. k r >>= f)
number g k >>= f = number g (λ r. k r >>= f)
text g k >>= f = text g (λ r. k r >>= f)

abbrev pub ◌>>◌ : {W B : Type 0} → Program W (Unit {0}) → Program W B → Program W B
m >> k = m >>= λ _. k

-- How a program ends: its function returns, or it exits with a status.
pub data Ending (A : Type 0) : Type 0 where
  returned : A → Ending A
  exited : ℕ → Ending A

module _ {W A : Type 0} (L : Libc W) where
  -- With the library: the calls are those of the exported functions.
  unfoldable pub run : Program W A → M W (Ending A)
  run (done a) p = ok (Ending.returned a, p)
  run (exits n) p = ok (Ending.exited n, p)
  run (calls c k) p = Process.◌>>=◌ (interpose L c) (λ r. run (k r)) p
  run (tells_cwd buf size k) p = Process.◌>>=◌ (getcwd L buf size) (λ r. run (k r)) p
  run (number g k) p = let (r, w) = g p.world in run (k r) (record p { world = w })
  run (text g k) p = let (r, w) = g p.world in run (k r) (record p { world = w })

  -- Without it: the calls are those of libc.
  unfoldable pub plain : Program W A → W → Ending A × W
  plain (done a) w = (Ending.returned a, w)
  plain (exits n) w = (Ending.exited n, w)
  plain (calls c k) w = let (r, w') = L.call c w in plain (k r) w'
  plain (tells_cwd buf size k) w = let (r, w') = L.getcwd size w in plain (k r) w'
  plain (number g k) w = let (r, w') = g w in plain (k r) w'
  plain (text g k) w = let (r, w') = g w in plain (k r) w'
