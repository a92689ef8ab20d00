-- ===== src/Interpose/Mode.antt =====
-- The variadic mode of `open` and `openat`.
use Prim.Native.Nat.{bit_and, bit_or}
use ld_preload.Prelude.{Bool-cases, ◌==◌, Option, none, some, ◌≡◌, inl, inr, ok}
use ld_preload.Interpose.Callers.{ModeOk, effective_mode}
use ld_preload.Libc.{Word}
use ld_preload.Process.{Process, read_mode, o_creat, o_tmpfile}

module _ {W : Type 0} where
  -- The variadic mode is there where it is read.
  pub read_mode_lem :
      (flags : Word) (variadic : Option Word) (p : Process W)
      → ModeOk flags variadic
      → read_mode flags variadic p ≡ ok (effective_mode flags variadic, p)
  unfolding read_mode
  read_mode_lem flags none p h = rw h
  read_mode_lem flags (some mode) p h =
      elim (Bool-cases (bit_and flags (bit_or o_creat o_tmpfile) == 0)) [
        | inl e ↦ rw e
        | inr e ↦ rw e
      ]
