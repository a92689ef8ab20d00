-- ===== src/Interpose/WorkingDirectory.antt =====
-- rtld_linux.c, the exported `getcwd`. Of `buf` only the size of its object matters, and `NULL` is
-- `none`; the result is the string that the returned pointer points to. The array `rewritten` has
-- PATH_MAX bytes, and `substitute_prefix_reverse` is told that it has `size`.
pub mod Laws
pub mod Faults
pub mod Off
pub mod Round
use ld_preload.Prelude.{
  ℕ, ◌+◌, Outcome, Bool, not, Option, none, some, Bytes, length, leb, ltb, if◌then◌else◌,
}
use ld_preload.Libc.{Libc}
use ld_preload.Orig.{orig_getcwd}
use ld_preload.Path.Clean.{path_max}
use ld_preload.Path.Prefix.{Policy, substitute_prefix_reverse}
use ld_preload.Process.{M, pure, ◌>>=◌, ◌>>◌, attempt, get_rewrite_policy}

-- `buf` as the string at it, if it is not NULL.
abbrev pub at_buf : Option ℕ → Bytes → Option Bytes
at_buf none cwd = none
at_buf (some capacity) cwd = some cwd

-- `memcpy(buf, rewritten, strlen(rewritten) + 1)`
pub copy_back : {W : Type 0} → Option ℕ → Bytes → M W (Option Bytes)
copy_back none rewritten p = Outcome.fault
copy_back (some capacity) rewritten p =
    if leb (length rewritten + 1) capacity then pure (some rewritten) p else Outcome.fault

-- Behind the substitution: `result` is the string that the real function left.
pub getcwd_finish : {W : Type 0} → Option ℕ → ℕ → Bytes → Option Bytes → M W (Option Bytes)
unfolding copy_back
getcwd_finish buf size result none = pure (some result)
getcwd_finish buf size result (some rewritten) =
    if ltb size (length rewritten + 1) then pure (some result) else copy_back buf rewritten

module _ {W : Type 0} (L : Libc W) where
  pub getcwd_rewrite : Option ℕ → ℕ → Option Bytes → M W (Option Bytes)
  getcwd_rewrite buf size none = pure none
  getcwd_rewrite buf size (some result) = do
    policy ← get_rewrite_policy L
    (if not policy.enabled then pure (some result) else do
      rewritten ← attempt (substitute_prefix_reverse policy (at_buf buf result) path_max size)
      getcwd_finish buf size result rewritten)

  pub getcwd : Option ℕ → ℕ → M W (Option Bytes)
  getcwd buf size = do result ← orig_getcwd L size; getcwd_rewrite buf size result
