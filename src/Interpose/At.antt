-- ===== src/Interpose/At.antt =====
-- rtld_linux.c, the exported functions that take a directory descriptor and one path.
use ld_preload.Prelude.{Option, ℤ}
use ld_preload.Libc.{Libc, Word, PathArg}
use ld_preload.Orig.{
  orig_fxstatat, orig_newfstatat, orig_faccessat, orig_fchmodat, orig_mkdirat, orig_openat,
  orig_openat2, orig_readlinkat, orig_statx, orig_unlinkat, orig_utimensat,
}
use ld_preload.Path.Clean.{path_max}
use ld_preload.Process.{M, ◌>>=◌, read_mode}
use ld_preload.Rewrite.{at_target}

module _ {W : Type 0} (L : Libc W) where
  unfoldable pub fxstatat : Word → ℤ → PathArg → Word → Word → M W ℤ
  fxstatat ver dirfd pathname cstat flags = do
    (call_dirfd, target) ← at_target L dirfd pathname path_max
    orig_fxstatat L ver call_dirfd target cstat flags

  unfoldable pub newfstatat : ℤ → PathArg → Word → Word → M W ℤ
  newfstatat dirfd pathname statbuf flags = do
    (call_dirfd, target) ← at_target L dirfd pathname path_max
    orig_newfstatat L call_dirfd target statbuf flags

  unfoldable pub faccessat : ℤ → PathArg → Word → Word → M W ℤ
  faccessat dirfd pathname mode flags = do
    (call_dirfd, target) ← at_target L dirfd pathname path_max
    orig_faccessat L call_dirfd target mode flags

  unfoldable pub fchmodat : ℤ → PathArg → Word → Word → M W ℤ
  fchmodat dirfd pathname mode flags = do
    (call_dirfd, target) ← at_target L dirfd pathname path_max
    orig_fchmodat L call_dirfd target mode flags

  unfoldable pub mkdirat : ℤ → PathArg → Word → M W ℤ
  mkdirat dirfd pathname mode = do
    (call_dirfd, target) ← at_target L dirfd pathname path_max
    orig_mkdirat L call_dirfd target mode

  unfoldable pub openat : ℤ → PathArg → Word → Option Word → M W ℤ
  openat dirfd pathname flags variadic = do
    mode ← read_mode flags variadic
    (call_dirfd, target) ← at_target L dirfd pathname path_max
    orig_openat L call_dirfd target flags mode

  unfoldable pub openat2 : ℤ → PathArg → Word → Word → M W ℤ
  openat2 dirfd pathname how size = do
    (call_dirfd, target) ← at_target L dirfd pathname path_max
    orig_openat2 L call_dirfd target how size

  unfoldable pub readlinkat : ℤ → PathArg → Word → Word → M W ℤ
  readlinkat dirfd pathname buf bufsiz = do
    (call_dirfd, target) ← at_target L dirfd pathname path_max
    orig_readlinkat L call_dirfd target buf bufsiz

  unfoldable pub statx : ℤ → PathArg → Word → Word → Word → M W ℤ
  statx dirfd pathname flags mask statxbuf = do
    (call_dirfd, target) ← at_target L dirfd pathname path_max
    orig_statx L call_dirfd target flags mask statxbuf

  unfoldable pub unlinkat : ℤ → PathArg → Word → M W ℤ
  unlinkat dirfd pathname flags = do
    (call_dirfd, target) ← at_target L dirfd pathname path_max
    orig_unlinkat L call_dirfd target flags

  unfoldable pub utimensat : ℤ → PathArg → Word → Word → M W ℤ
  utimensat dirfd pathname times flags = do
    (call_dirfd, target) ← at_target L dirfd pathname path_max
    orig_utimensat L call_dirfd target times flags
