-- ===== src/Orig.antt =====
-- rtld_linux.c, the functions `orig_…`: each passes its arguments to the real function, or fails
-- with ENOSYS if there is none.
use ld_preload.Prelude.{ℕ, Option, none, some, Bytes, ℤ}
use ld_preload.Libc.{Symbol, Call, Libc, Word, PathArg}
use ld_preload.Process.{M, pure, require_symbol, invoke}

abbrev pub minus_one : ℤ
minus_one = ℤ.negsuc 0

module _ {W : Type 0} (L : Libc W) where
  unfoldable pub orig_fxstat : Word → ℤ → Word → M W ℤ
  orig_fxstat ver fd cstat =
      require_symbol L Symbol.fxstat minus_one (invoke L (Call.fxstat ver fd cstat))

  unfoldable pub orig_fxstatat : Word → ℤ → PathArg → Word → Word → M W ℤ
  orig_fxstatat ver dirfd pathname cstat flags =
      require_symbol L Symbol.fxstatat minus_one
        (invoke L (Call.fxstatat ver dirfd pathname cstat flags))

  unfoldable pub orig_lxstat : Word → PathArg → Word → M W ℤ
  orig_lxstat ver pathname cstat =
      require_symbol L Symbol.lxstat minus_one (invoke L (Call.lxstat ver pathname cstat))

  unfoldable pub orig_xstat : Word → PathArg → Word → M W ℤ
  orig_xstat ver pathname cstat =
      require_symbol L Symbol.xstat minus_one (invoke L (Call.xstat ver pathname cstat))

  unfoldable pub orig_access : PathArg → Word → M W ℤ
  orig_access pathname mode =
      require_symbol L Symbol.access minus_one (invoke L (Call.access pathname mode))

  unfoldable pub orig_chdir : PathArg → M W ℤ
  orig_chdir path = require_symbol L Symbol.chdir minus_one (invoke L (Call.chdir path))

  unfoldable pub orig_execve : PathArg → Word → Word → M W ℤ
  orig_execve pathname argv envp =
      require_symbol L Symbol.execve minus_one (invoke L (Call.execve pathname argv envp))

  unfoldable pub orig_close : ℤ → M W ℤ
  orig_close fd = require_symbol L Symbol.close minus_one (invoke L (Call.close fd))

  unfoldable pub orig_creat : PathArg → Word → M W ℤ
  orig_creat pathname mode =
      require_symbol L Symbol.creat minus_one (invoke L (Call.creat pathname mode))

  unfoldable pub orig_fstat : ℤ → Word → M W ℤ
  orig_fstat fd cstat = require_symbol L Symbol.fstat minus_one (invoke L (Call.fstat fd cstat))

  unfoldable pub orig_newfstatat : ℤ → PathArg → Word → Word → M W ℤ
  orig_newfstatat dirfd pathname statbuf flags =
      require_symbol L Symbol.newfstatat minus_one
        (invoke L (Call.newfstatat dirfd pathname statbuf flags))

  unfoldable pub orig_faccessat : ℤ → PathArg → Word → Word → M W ℤ
  orig_faccessat dirfd pathname mode flags =
      require_symbol L Symbol.faccessat minus_one
        (invoke L (Call.faccessat dirfd pathname mode flags))

  unfoldable pub orig_fchmodat : ℤ → PathArg → Word → Word → M W ℤ
  orig_fchmodat dirfd pathname mode flags =
      require_symbol L Symbol.fchmodat minus_one
        (invoke L (Call.fchmodat dirfd pathname mode flags))

  unfoldable pub orig_link : PathArg → PathArg → M W ℤ
  orig_link oldpath newpath =
      require_symbol L Symbol.link minus_one (invoke L (Call.link oldpath newpath))

  unfoldable pub orig_linkat : ℤ → PathArg → ℤ → PathArg → Word → M W ℤ
  orig_linkat olddirfd oldpath newdirfd newpath flags =
      require_symbol L Symbol.linkat minus_one
        (invoke L (Call.linkat olddirfd oldpath newdirfd newpath flags))

  unfoldable pub orig_lseek : ℤ → Word → Word → M W ℤ
  orig_lseek fd offset whence =
      require_symbol L Symbol.lseek minus_one (invoke L (Call.lseek fd offset whence))

  unfoldable pub orig_mkdir : PathArg → Word → M W ℤ
  orig_mkdir pathname mode =
      require_symbol L Symbol.mkdir minus_one (invoke L (Call.mkdir pathname mode))

  unfoldable pub orig_mkdirat : ℤ → PathArg → Word → M W ℤ
  orig_mkdirat dirfd pathname mode =
      require_symbol L Symbol.mkdirat minus_one (invoke L (Call.mkdirat dirfd pathname mode))

  unfoldable pub orig_open_path : PathArg → Word → Word → M W ℤ
  orig_open_path pathname flags mode =
      require_symbol L Symbol.open_path minus_one
        (invoke L (Call.open_path pathname flags (some mode)))

  unfoldable pub orig_openat : ℤ → PathArg → Word → Word → M W ℤ
  orig_openat dirfd pathname flags mode =
      require_symbol L Symbol.openat minus_one
        (invoke L (Call.openat dirfd pathname flags (some mode)))

  unfoldable pub orig_openat2 : ℤ → PathArg → Word → Word → M W ℤ
  orig_openat2 dirfd pathname how size =
      require_symbol L Symbol.openat2 minus_one (invoke L (Call.openat2 dirfd pathname how size))

  unfoldable pub orig_euidaccess : PathArg → Word → M W ℤ
  orig_euidaccess pathname mode =
      require_symbol L Symbol.euidaccess minus_one (invoke L (Call.euidaccess pathname mode))

  unfoldable pub orig_pread : ℤ → Word → Word → Word → M W ℤ
  orig_pread fd buf count offset =
      require_symbol L Symbol.pread minus_one (invoke L (Call.pread fd buf count offset))

  unfoldable pub orig_pwrite : ℤ → Word → Word → Word → M W ℤ
  orig_pwrite fd buf count offset =
      require_symbol L Symbol.pwrite minus_one (invoke L (Call.pwrite fd buf count offset))

  unfoldable pub orig_read : ℤ → Word → Word → M W ℤ
  orig_read fd buf count =
      require_symbol L Symbol.read minus_one (invoke L (Call.read fd buf count))

  unfoldable pub orig_readlink : PathArg → Word → Word → M W ℤ
  orig_readlink pathname buf bufsiz =
      require_symbol L Symbol.readlink minus_one (invoke L (Call.readlink pathname buf bufsiz))

  unfoldable pub orig_readlinkat : ℤ → PathArg → Word → Word → M W ℤ
  orig_readlinkat dirfd pathname buf bufsiz =
      require_symbol L Symbol.readlinkat minus_one
        (invoke L (Call.readlinkat dirfd pathname buf bufsiz))

  unfoldable pub orig_rename : PathArg → PathArg → M W ℤ
  orig_rename oldpath newpath =
      require_symbol L Symbol.rename minus_one (invoke L (Call.rename oldpath newpath))

  unfoldable pub orig_renameat : ℤ → PathArg → ℤ → PathArg → M W ℤ
  orig_renameat olddirfd oldpath newdirfd newpath =
      require_symbol L Symbol.renameat minus_one
        (invoke L (Call.renameat olddirfd oldpath newdirfd newpath))

  unfoldable pub orig_renameat2 : ℤ → PathArg → ℤ → PathArg → Word → M W ℤ
  orig_renameat2 olddirfd oldpath newdirfd newpath flags =
      require_symbol L Symbol.renameat2 minus_one
        (invoke L (Call.renameat2 olddirfd oldpath newdirfd newpath flags))

  unfoldable pub orig_rmdir : PathArg → M W ℤ
  orig_rmdir pathname = require_symbol L Symbol.rmdir minus_one (invoke L (Call.rmdir pathname))

  unfoldable pub orig_lstat : PathArg → Word → M W ℤ
  orig_lstat pathname cstat =
      require_symbol L Symbol.lstat minus_one (invoke L (Call.lstat pathname cstat))

  unfoldable pub orig_statx : ℤ → PathArg → Word → Word → Word → M W ℤ
  orig_statx dirfd pathname flags mask statxbuf =
      require_symbol L Symbol.statx minus_one
        (invoke L (Call.statx dirfd pathname flags mask statxbuf))

  unfoldable pub orig_stat : PathArg → Word → M W ℤ
  orig_stat pathname cstat =
      require_symbol L Symbol.stat minus_one (invoke L (Call.stat pathname cstat))

  unfoldable pub orig_statfs : PathArg → Word → M W ℤ
  orig_statfs path buf = require_symbol L Symbol.statfs minus_one (invoke L (Call.statfs path buf))

  unfoldable pub orig_symlink : PathArg → PathArg → M W ℤ
  orig_symlink target linkpath =
      require_symbol L Symbol.symlink minus_one (invoke L (Call.symlink target linkpath))

  unfoldable pub orig_symlinkat : PathArg → ℤ → PathArg → M W ℤ
  orig_symlinkat target newdirfd linkpath =
      require_symbol L Symbol.symlinkat minus_one
        (invoke L (Call.symlinkat target newdirfd linkpath))

  unfoldable pub orig_truncate : PathArg → Word → M W ℤ
  orig_truncate pathname length =
      require_symbol L Symbol.truncate minus_one (invoke L (Call.truncate pathname length))

  unfoldable pub orig_unlink : PathArg → M W ℤ
  orig_unlink pathname = require_symbol L Symbol.unlink minus_one (invoke L (Call.unlink pathname))

  unfoldable pub orig_unlinkat : ℤ → PathArg → Word → M W ℤ
  orig_unlinkat dirfd pathname flags =
      require_symbol L Symbol.unlinkat minus_one (invoke L (Call.unlinkat dirfd pathname flags))

  unfoldable pub orig_utimensat : ℤ → PathArg → Word → Word → M W ℤ
  orig_utimensat dirfd pathname times flags =
      require_symbol L Symbol.utimensat minus_one
        (invoke L (Call.utimensat dirfd pathname times flags))

  unfoldable pub orig_write : ℤ → Word → Word → M W ℤ
  orig_write fd buf count =
      require_symbol L Symbol.write minus_one (invoke L (Call.write fd buf count))

  -- The string in `buf`, or `NULL`.
  unfoldable pub orig_getcwd : ℕ → M W (Option Bytes)
  orig_getcwd size =
      require_symbol L Symbol.getcwd none
        λ p. let (r, w) = L.getcwd size p.world in pure r (record p { world = w })
