-- ===== src/Interpose/Pair.antt =====
-- rtld_linux.c, the exported functions with two paths and descriptors, and those that make links.
use ld_preload.Prelude.{none, some, ℤ, if◌then◌else◌}
use ld_preload.Libc.{Libc, Word, PathArg}
use ld_preload.Orig.{orig_linkat, orig_renameat, orig_renameat2, orig_symlink, orig_symlinkat}
use ld_preload.Path.Clean.{path_max, is_absolute}
use ld_preload.Process.{M, pure, ◌>>=◌}
use ld_preload.Rewrite.{rewrite_path_argument, rewrite_cwd_relative_argument, rewrite_at_argument}

module _ {W : Type 0} (L : Libc W) where
  -- The target of a link is rewritten only if it is absolute.
  unfoldable pub symlink_target : PathArg → M W PathArg
  symlink_target none = pure none
  symlink_target (some target) =
      if is_absolute target
      then rewrite_path_argument L (some target) path_max
      else pure (some target)

  unfoldable pub linkat : ℤ → PathArg → ℤ → PathArg → Word → M W ℤ
  linkat olddirfd oldpath newdirfd newpath flags = do
    (olddirfd', effective_oldpath) ← rewrite_at_argument L olddirfd oldpath path_max
    (newdirfd', effective_newpath) ← rewrite_at_argument L newdirfd newpath path_max
    orig_linkat L olddirfd' effective_oldpath newdirfd' effective_newpath flags

  unfoldable pub renameat : ℤ → PathArg → ℤ → PathArg → M W ℤ
  renameat olddirfd oldpath newdirfd newpath = do
    (olddirfd', effective_oldpath) ← rewrite_at_argument L olddirfd oldpath path_max
    (newdirfd', effective_newpath) ← rewrite_at_argument L newdirfd newpath path_max
    orig_renameat L olddirfd' effective_oldpath newdirfd' effective_newpath

  unfoldable pub renameat2 : ℤ → PathArg → ℤ → PathArg → Word → M W ℤ
  renameat2 olddirfd oldpath newdirfd newpath flags = do
    (olddirfd', effective_oldpath) ← rewrite_at_argument L olddirfd oldpath path_max
    (newdirfd', effective_newpath) ← rewrite_at_argument L newdirfd newpath path_max
    orig_renameat2 L olddirfd' effective_oldpath newdirfd' effective_newpath flags

  unfoldable pub symlink : PathArg → PathArg → M W ℤ
  symlink target linkpath = do
    effective_target ← symlink_target target
    effective_linkpath ← rewrite_cwd_relative_argument L linkpath path_max
    orig_symlink L effective_target effective_linkpath

  unfoldable pub symlinkat : PathArg → ℤ → PathArg → M W ℤ
  symlinkat target newdirfd linkpath = do
    (newdirfd', effective_linkpath) ← rewrite_at_argument L newdirfd linkpath path_max
    effective_target ← symlink_target target
    orig_symlinkat L effective_target newdirfd' effective_linkpath
