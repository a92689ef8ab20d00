-- ===== src/Rewrite.antt =====
-- rtld_linux.c, from `rewrite_absolute_path` to `rewrite_at_argument`: which path the real
-- function gets. A helper that fills `buf` and returns 1 yields the string in it, and `none` for 0;
-- `dst_len` is the size of that buffer, which every caller passes by `sizeof`.
pub mod Relations
pub mod Laws
pub mod BaseLaws
pub mod RelativeLaws
pub mod ArgumentLaws
pub mod Off
pub mod Exact
use ld_preload.Prelude.{
  ℕ, ◌+◌, ◌-◌, Bool, true, false, not, ◌++◌, Option, none, some, Bytes, codes, length, leb, ℤ,
  int_eq, decimal, if◌then◌else◌,
}
use ld_preload.Libc.{Symbol, Libc, PathArg, at_fdcwd}
use ld_preload.Path.Clean.{path_max, is_absolute, clean_path_into}
use ld_preload.Path.Compose.{clean_and_substitute, join_and_substitute}
use ld_preload.Process.{Process, M, pure, ◌>>=◌, ◌>>◌, attempt, ensure_symbols, get_rewrite_policy}

-- `snprintf(fd_path, sizeof(fd_path), "/proc/self/fd/%d", dirfd)`
pub fd_path : ℤ → Bytes
fd_path dirfd = codes "/proc/self/fd/" ++ decimal dirfd

-- The path for the real function: the buffer if it was filled, else the caller's.
abbrev pub or_caller : Option Bytes → PathArg → PathArg
or_caller (some buf) pathname = some buf
or_caller none pathname = pathname

-- `*dirfd = AT_FDCWD; return buf;`, or both as they were.
abbrev pub or_caller_at : ℤ → PathArg → Option Bytes → ℤ × PathArg
or_caller_at dirfd pathname (some buf) = (at_fdcwd, some buf)
or_caller_at dirfd pathname none = (dirfd, pathname)

-- `n < 0 || n >= sizeof(base) - 1`, then the tests on the link's text.
pub base_of_link : {W : Type 0} → Option Bytes → M W (Option Bytes)
base_of_link none = pure none
base_of_link (some base) =
    if leb (path_max - 1) (length base)
    then pure none
    else if not (is_absolute base)
    then pure none
    else attempt (clean_path_into (some base) (some path_max) path_max)

pub join_to_base : {W : Type 0} → ℕ → Bytes → Option Bytes → M W (Option Bytes)
join_to_base dst_len pathname none p = pure none p
join_to_base dst_len pathname (some base) p =
    attempt (join_and_substitute p.rewrite_policy base pathname dst_len) p

module _ {W : Type 0} (L : Libc W) where
  pub rewrite_absolute_path : PathArg → ℕ → M W (Option Bytes)
  rewrite_absolute_path none dst_len = pure none
  rewrite_absolute_path (some pathname) dst_len =
      if not (is_absolute pathname) then pure none else do
        policy ← get_rewrite_policy L
        (if not policy.enabled
            then pure none
            else attempt (clean_and_substitute policy pathname dst_len))

  -- The branch for AT_FDCWD: `base` is filled, or the function returns 0.
  pub base_of_cwd : M W (Option Bytes)
  base_of_cwd p =
      if p.real Symbol.getcwd
      then (let (base, w) = L.getcwd path_max p.world in pure base (record p { world = w }))
      else pure none p

  -- The branch for another descriptor.
  pub base_of_fd : ℤ → M W (Option Bytes)
  unfolding base_of_link
  base_of_fd dirfd = if leb 64 (length (fd_path dirfd)) then pure none else do
    ensure_symbols L
    λ p.
        if p.real Symbol.readlink
        then (let (base, w) = L.readlink (fd_path dirfd) (path_max - 1) p.world in
            base_of_link base (record p { world = w }))
        else pure none p

  pub rewrite_relative_path_from_dirfd : ℤ → PathArg → ℕ → M W (Option Bytes)
  rewrite_relative_path_from_dirfd dirfd none dst_len = pure none
  rewrite_relative_path_from_dirfd dirfd (some pathname) dst_len =
      if is_absolute pathname then pure none else do
        policy ← get_rewrite_policy L
        (if not policy.enabled then pure none else do
          ensure_symbols L
          base ← if int_eq dirfd at_fdcwd then base_of_cwd else base_of_fd dirfd
          join_to_base dst_len pathname base)

  pub rewrite_path_argument : PathArg → ℕ → M W PathArg
  rewrite_path_argument none buf_len = pure none
  rewrite_path_argument (some pathname) buf_len = do
    buf ← rewrite_absolute_path (some pathname) buf_len
    pure (or_caller buf (some pathname))

  pub rewrite_cwd_relative_argument : PathArg → ℕ → M W PathArg
  rewrite_cwd_relative_argument none buf_len = pure none
  rewrite_cwd_relative_argument (some pathname) buf_len =
      if is_absolute pathname then rewrite_path_argument (some pathname) buf_len else do
        buf ← rewrite_relative_path_from_dirfd at_fdcwd (some pathname) buf_len
        pure (or_caller buf (some pathname))

  -- The new value of `*dirfd`, and the path.
  pub rewrite_at_argument : ℤ → PathArg → ℕ → M W (ℤ × PathArg)
  rewrite_at_argument dirfd none buf_len = pure (dirfd, none)
  rewrite_at_argument dirfd (some pathname) buf_len =
      if is_absolute pathname
      then (do path ← rewrite_path_argument (some pathname) buf_len; pure (dirfd, path))
      else do
        buf ← rewrite_relative_path_from_dirfd dirfd (some pathname) buf_len
        pure (or_caller_at dirfd (some pathname) buf)

  -- The block that eleven `…at` wrappers write out: `target` and `call_dirfd`.
  pub at_target : ℤ → PathArg → ℕ → M W (ℤ × PathArg)
  at_target dirfd none buf_len = do
    buf ← rewrite_relative_path_from_dirfd dirfd none buf_len
    pure (or_caller_at dirfd none buf)
  at_target dirfd (some pathname) buf_len =
      if is_absolute pathname
      then (do target ← rewrite_path_argument (some pathname) buf_len; pure (dirfd, target))
      else do
        buf ← rewrite_relative_path_from_dirfd dirfd (some pathname) buf_len
        pure (or_caller_at dirfd (some pathname) buf)
