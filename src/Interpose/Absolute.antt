-- ===== src/Interpose/Absolute.antt =====
-- rtld_linux.c, the exported functions that rewrite one path if it is absolute.
use ld_preload.Prelude.{Option, ℤ}
use ld_preload.Libc.{Libc, Word, PathArg}
use ld_preload.Orig.{
  orig_lxstat, orig_xstat, orig_creat, orig_mkdir, orig_open_path, orig_readlink, orig_lstat,
  orig_rmdir, orig_stat, orig_truncate, orig_unlink,
}
use ld_preload.Path.Clean.{path_max}
use ld_preload.Process.{M, ◌>>=◌, read_mode}
use ld_preload.Rewrite.{rewrite_path_argument}

module _ {W : Type 0} (L : Libc W) where
  unfoldable pub lxstat : Word → PathArg → Word → M W ℤ
  lxstat ver pathname cstat = do
    target ← rewrite_path_argument L pathname path_max
    orig_lxstat L ver target cstat

  unfoldable pub xstat : Word → PathArg → Word → M W ℤ
  xstat ver pathname cstat = do
    target ← rewrite_path_argument L pathname path_max
    orig_xstat L ver target cstat

  unfoldable pub creat : PathArg → Word → M W ℤ
  creat pathname mode = do
    target ← rewrite_path_argument L pathname path_max
    orig_creat L target mode

  unfoldable pub mkdir : PathArg → Word → M W ℤ
  mkdir pathname mode = do
    target ← rewrite_path_argument L pathname path_max
    orig_mkdir L target mode

  unfoldable pub open_path : PathArg → Word → Option Word → M W ℤ
  open_path pathname flags variadic = do
    mode ← read_mode flags variadic
    target ← rewrite_path_argument L pathname path_max
    orig_open_path L target flags mode

  unfoldable pub readlink : PathArg → Word → Word → M W ℤ
  readlink pathname buf bufsiz = do
    target ← rewrite_path_argument L pathname path_max
    orig_readlink L target buf bufsiz

  unfoldable pub lstat : PathArg → Word → M W ℤ
  lstat pathname cstat = do
    target ← rewrite_path_argument L pathname path_max
    orig_lstat L target cstat

  unfoldable pub rmdir : PathArg → M W ℤ
  rmdir pathname = do target ← rewrite_path_argument L pathname path_max; orig_rmdir L target

  unfoldable pub stat : PathArg → Word → M W ℤ
  stat pathname cstat = do
    target ← rewrite_path_argument L pathname path_max
    orig_stat L target cstat

  unfoldable pub truncate : PathArg → Word → M W ℤ
  truncate pathname length = do
    target ← rewrite_path_argument L pathname path_max
    orig_truncate L target length

  unfoldable pub unlink : PathArg → M W ℤ
  unlink pathname = do target ← rewrite_path_argument L pathname path_max; orig_unlink L target
