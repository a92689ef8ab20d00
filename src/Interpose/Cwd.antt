-- ===== src/Interpose/Cwd.antt =====
-- rtld_linux.c, the exported functions that resolve their paths against the working directory.
use ld_preload.Prelude.{Bool, true, false, ℤ}
use ld_preload.Libc.{Libc, Symbol, Word, PathArg}
use ld_preload.Orig.{
  orig_access, orig_chdir, orig_execve, orig_euidaccess, orig_statfs, orig_link, orig_rename,
}
use ld_preload.Path.Clean.{path_max}
use ld_preload.Process.{M, pure, ◌>>=◌}
use ld_preload.Rewrite.{rewrite_cwd_relative_argument}

module _ {W : Type 0} (L : Libc W) where
  unfoldable pub access : PathArg → Word → M W ℤ
  access pathname mode = do
    target ← rewrite_cwd_relative_argument L pathname path_max
    orig_access L target mode

  unfoldable pub chdir : PathArg → M W ℤ
  chdir path = do target ← rewrite_cwd_relative_argument L path path_max; orig_chdir L target

  unfoldable pub execve : PathArg → Word → Word → M W ℤ
  execve pathname argv envp = do
    target ← rewrite_cwd_relative_argument L pathname path_max
    orig_execve L target argv envp

  unfoldable pub euidaccess : PathArg → Word → M W ℤ
  euidaccess pathname mode = do
    target ← rewrite_cwd_relative_argument L pathname path_max
    orig_euidaccess L target mode

  unfoldable pub statfs : PathArg → Word → M W ℤ
  statfs path buf = do
    target ← rewrite_cwd_relative_argument L path path_max
    orig_statfs L target buf

  -- The two arguments of `orig_link` and `orig_rename`, in one order or the other.
  unfoldable pub rewrite_both : Bool → PathArg → PathArg → M W (PathArg × PathArg)
  rewrite_both false oldpath newpath = do
    old ← rewrite_cwd_relative_argument L oldpath path_max
    new ← rewrite_cwd_relative_argument L newpath path_max
    pure (old, new)
  rewrite_both true oldpath newpath = do
    new ← rewrite_cwd_relative_argument L newpath path_max
    old ← rewrite_cwd_relative_argument L oldpath path_max
    pure (old, new)

  unfoldable pub link : PathArg → PathArg → M W ℤ
  link oldpath newpath = do
    (old, new) ← rewrite_both (L.right_first Symbol.link) oldpath newpath
    orig_link L old new

  unfoldable pub rename : PathArg → PathArg → M W ℤ
  rename oldpath newpath = do
    (old, new) ← rewrite_both (L.right_first Symbol.rename) oldpath newpath
    orig_rename L old new
