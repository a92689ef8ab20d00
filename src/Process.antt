-- ===== src/Process.antt =====
-- rtld_linux.c, the static state of the library and its initialisation: `resolve_symbols`,
-- `ensure_symbols`, `get_rewrite_policy` and the macros REQUIRE_SYMBOL and REQUIRE_SYMBOL_PTR.
-- A `pthread_once` runs its function as one step, at the first call.
pub mod Laws
pub mod Once
pub mod Snapshot
pub mod Settled
use Prim.Native.Nat.{bit_and, bit_or}
use ld_preload.Prelude.{
  ◌==◌, ℕ, Bool, true, false, Option, none, some, Bytes, ℤ, Outcome, fault, hang, refuse, ok,
  if◌then◌else◌,
}
use ld_preload.Libc.{Symbol, Call, Libc, Word, enosys}
use ld_preload.Path.Prefix.{Policy}
use ld_preload.Policy.{init_rewrite_policy}

-- `real` tells which of the pointers `real_…` are not NULL.
pub record Process (W : Type 0) : Type 0 where
  pub resolve_once : Bool
  pub rewrite_once : Bool
  pub real : Symbol → Bool
  pub rewrite_policy : Policy
  pub world : W

-- Code that changes the state of the process.
abbrev pub M : Type 0 → Type 0 → Type 0
M W A = Process W → Outcome (A × Process W)

abbrev pub pure : {W A : Type 0} → A → M W A
pure a p = ok (a, p)

infixl 5 ◌>>=◌ ◌>>◌
abbrev pub ◌>>=◌ : {W A B : Type 0} → M W A → (A → M W B) → M W B
◌>>=◌ m f p = elim (m p) [ fault ↦ fault | hang ↦ hang | refuse ↦ refuse | ok (a, p') ↦ f a p' ]

abbrev pub ◌>>◌ : {W B : Type 0} → M W (Unit {0}) → M W B → M W B
m >> k = m >>= λ _. k

-- The result of a helper that returns 0 or -1: `none` for -1.
abbrev pub attempt : {W A : Type 0} → Outcome A → M W (Option A)
attempt fault p = fault
attempt hang p = hang
attempt refuse p = ok (none, p)
attempt (ok a) p = ok (some a, p)

module _ {W : Type 0} (L : Libc W) where
  pub resolve_symbols : Process W → Process W
  resolve_symbols p = record p { real = L.dlsym p.world }

  pub ensure_symbols : M W (Unit {0})
  unfolding resolve_symbols
  ensure_symbols p =
      if p.resolve_once
      then ok (tt, p)
      else ok (tt, record (resolve_symbols p) { resolve_once = true })

  pub get_rewrite_policy : M W Policy
  get_rewrite_policy p =
      if p.rewrite_once
      then ok (p.rewrite_policy, p)
      else elim (init_rewrite_policy (L.getenv p.world)) [
        | fault ↦ fault
        | hang ↦ hang
        | refuse ↦ refuse
        | ok policy ↦ ok (policy, record p { rewrite_once = true; rewrite_policy = policy })
      ]

  -- `if ((sym) == NULL) { errno = ENOSYS; return failure; }`, then the rest.
  pub require_symbol : {A : Type 0} → Symbol → A → M W A → M W A
  unfolding ensure_symbols
  require_symbol s failure rest = do
    ensure_symbols
    λ p. if p.real s then rest p else ok (failure, record p { world = L.set_errno enosys p.world })

  pub invoke : Call → M W ℤ
  invoke c p = let (r, w) = L.call c p.world in ok (r, record p { world = w })

-- O_CREAT and O_TMPFILE of fcntl.h; the second holds the bit of O_DIRECTORY.
abbrev pub o_creat : Word
o_creat = 0o100

abbrev pub o_tmpfile : Word
o_tmpfile = 0o20200000

-- `if (flags & (O_CREAT | O_TMPFILE)) mode = va_arg(args, int);`, which faults where the caller
-- passed no such argument.
unfoldable pub read_mode : {W : Type 0} → Word → Option Word → M W Word
read_mode flags variadic =
    if bit_and flags (bit_or o_creat o_tmpfile) == 0
    then pure 0
    else elim variadic [ none ↦ λ p. fault | some mode ↦ pure mode ]
