-- ===== src/Prelude/Int.antt =====
-- Signed integers over the native numbers, and their decimal text as `%d` writes it.
use Prim.Native.Nat.{ℕ, zero, suc, ◌+◌, ◌*◌, ◌<◌, ◌/◌, ◌%◌, ◌≤◌}
use mathlib.Core.Path.{◌≡◌, refl}
use mathlib.Core.Logic.{inl, inr}
use mathlib.Core.Bool.{Bool, true, false}
use mathlib.Core.List.{[], ◌∷◌}
use native.Mathlib.Omega.{arith}
use ld_preload.Prelude.Lists.{Bytes, length}
use ld_preload.Prelude.Tests.{◌==◌, ltb, Bool-cases}

-- `negsuc n` is -(n + 1).
pub data ℤ : Type 0 where
  pos : ℕ → ℤ
  negsuc : ℕ → ℤ

unfoldable pub int_eq : ℤ → ℤ → Bool
int_eq (pos a) (pos b) = a == b
int_eq (negsuc a) (negsuc b) = a == b
int_eq _ _ = false

-- The digits of `n`, the last one first put down, in front of `rest`.
pub digits : ℕ → ℕ → Bytes → Bytes
digits zero n rest = rest
digits (suc fuel) n rest = elim (ltb n 10) [
  | true ↦ (b'0' + n) ∷ rest
  | false ↦ digits fuel (n / 10) ((b'0' + n % 10) ∷ rest)
]

-- A number has fewer digits than `n + 1` rounds put down.
unfoldable pub decimal : ℤ → Bytes
unfolding digits
decimal (pos n) = digits (n + 1) n []
decimal (negsuc n) = b'-' ∷ digits (n + 2) (n + 1) []

-- More than `n` rounds change nothing.
pub digits-enough :
    (fuel n : ℕ) (rest : Bytes) → n < fuel → digits fuel n rest ≡ digits (suc fuel) n rest
unfolding digits
digits-enough zero n rest h = absurd (omega arith)
digits-enough (suc fuel) n rest h = elim (Bool-cases (ltb n 10)) [
  | inl e ↦ rw (digits, e) refl
  | inr e ↦
      rw (digits, e)
        (let less : n / 10 < fuel = ground (arith, e, h) in
          digits-enough fuel (n / 10) ((b'0' + n % 10) ∷ rest) less)
]

-- The least number with `k + 1` digits.
abbrev least : ℕ → ℕ
least zero = 1
least (suc k) = 10 * least k

length-digits-le :
    (k fuel n : ℕ) (rest : Bytes)
    → n < 10 * least k
    → length (digits fuel n rest) ≤ k + 1 + length rest
unfolding digits
length-digits-le k zero n rest h = omega arith
length-digits-le zero (suc fuel) n rest h =
    let one : ltb n 10 ≡ true = ground (arith, h) in rw (digits, one) (omega arith)
length-digits-le (suc k) (suc fuel) n rest h = elim (Bool-cases (ltb n 10)) [
  | inl e ↦ rw (digits, e) (omega arith)
  | inr e ↦
      rw (digits, e)
        (let less : n / 10 < 10 * least k = omega arith in
          omega (arith, length-digits-le k fuel (n / 10) ((b'0' + n % 10) ∷ rest) less))
]

-- The values of a 32-bit `int`.
abbrev pub IsInt : ℤ → Type 0
IsInt (pos n) = n < 2147483648
IsInt (negsuc n) = n < 2147483648

pub length-decimal-le : (i : ℤ) → IsInt i → length (decimal i) ≤ 11
unfolding decimal
length-decimal-le (pos n) h =
    let small : n < 10 * least 9 = omega arith in
    omega (arith, length-digits-le 9 (n + 1) n [] small)
length-decimal-le (negsuc n) h =
    let small : n + 1 < 10 * least 9 = omega arith in
    omega (arith, length-digits-le 9 (n + 2) (n + 1) [] small)
