-- ===== src/Interpose/Dispatch.antt =====
-- The exported functions as one: what the program gets that makes a call.
use ld_preload.Prelude.{ℤ}
use ld_preload.Libc.{Libc, Call}
use ld_preload.Interpose.Plain.{fxstat, close, fstat, lseek, pread, pwrite, read, write}
use ld_preload.Interpose.Absolute.{
  lxstat, xstat, creat, mkdir, open_path, readlink, lstat, rmdir, stat, truncate, unlink,
}
use ld_preload.Interpose.Cwd.{access, chdir, execve, euidaccess, statfs, link, rename}
use ld_preload.Interpose.At.{
  fxstatat, newfstatat, faccessat, fchmodat, mkdirat, openat, openat2, readlinkat, statx, unlinkat,
  utimensat,
}
use ld_preload.Interpose.Pair.{linkat, renameat, renameat2, symlink, symlinkat, symlink_target}
use ld_preload.Orig.{
  orig_fxstat, orig_fxstatat, orig_lxstat, orig_xstat, orig_access, orig_chdir, orig_execve,
  orig_close, orig_creat, orig_fstat, orig_newfstatat, orig_faccessat, orig_fchmodat, orig_link,
  orig_linkat, orig_lseek, orig_mkdir, orig_mkdirat, orig_open_path, orig_openat, orig_openat2,
  orig_euidaccess, orig_pread, orig_pwrite, orig_read, orig_readlink, orig_readlinkat, orig_rename,
  orig_renameat, orig_renameat2, orig_rmdir, orig_lstat, orig_statx, orig_stat, orig_statfs,
  orig_symlink, orig_symlinkat, orig_truncate, orig_unlink, orig_unlinkat, orig_utimensat,
  orig_write,
}
use ld_preload.Process.{M}

module _ {W : Type 0} (L : Libc W) where
  unfoldable pub interpose : Call → M W ℤ
  unfolding symlink_target fxstat fxstatat lxstat xstat access chdir execve close creat fstat
      newfstatat faccessat fchmodat link linkat lseek mkdir mkdirat open_path openat openat2
      euidaccess pread pwrite read readlink readlinkat rename renameat renameat2 rmdir lstat statx
      stat statfs symlink symlinkat truncate unlink unlinkat utimensat write orig_fxstat
      orig_fxstatat orig_lxstat orig_xstat orig_access orig_chdir orig_execve orig_close orig_creat
      orig_fstat orig_newfstatat orig_faccessat orig_fchmodat orig_link orig_linkat orig_lseek
      orig_mkdir orig_mkdirat orig_open_path orig_openat orig_openat2 orig_euidaccess orig_pread
      orig_pwrite orig_read orig_readlink orig_readlinkat orig_rename orig_renameat orig_renameat2
      orig_rmdir orig_lstat orig_statx orig_stat orig_statfs orig_symlink orig_symlinkat
      orig_truncate orig_unlink orig_unlinkat orig_utimensat orig_write
  interpose (Call.fxstat ver fd cstat) = fxstat L ver fd cstat
  interpose (Call.fxstatat ver dirfd pathname cstat flags) =
      fxstatat L ver dirfd pathname cstat flags
  interpose (Call.lxstat ver pathname cstat) = lxstat L ver pathname cstat
  interpose (Call.xstat ver pathname cstat) = xstat L ver pathname cstat
  interpose (Call.access pathname mode) = access L pathname mode
  interpose (Call.chdir path) = chdir L path
  interpose (Call.execve pathname argv envp) = execve L pathname argv envp
  interpose (Call.close fd) = close L fd
  interpose (Call.creat pathname mode) = creat L pathname mode
  interpose (Call.fstat fd cstat) = fstat L fd cstat
  interpose (Call.newfstatat dirfd pathname statbuf flags) =
      newfstatat L dirfd pathname statbuf flags
  interpose (Call.faccessat dirfd pathname mode flags) = faccessat L dirfd pathname mode flags
  interpose (Call.fchmodat dirfd pathname mode flags) = fchmodat L dirfd pathname mode flags
  interpose (Call.link oldpath newpath) = link L oldpath newpath
  interpose (Call.linkat olddirfd oldpath newdirfd newpath flags) =
      linkat L olddirfd oldpath newdirfd newpath flags
  interpose (Call.lseek fd offset whence) = lseek L fd offset whence
  interpose (Call.mkdir pathname mode) = mkdir L pathname mode
  interpose (Call.mkdirat dirfd pathname mode) = mkdirat L dirfd pathname mode
  interpose (Call.open_path pathname flags mode) = open_path L pathname flags mode
  interpose (Call.openat dirfd pathname flags mode) = openat L dirfd pathname flags mode
  interpose (Call.openat2 dirfd pathname how size) = openat2 L dirfd pathname how size
  interpose (Call.euidaccess pathname mode) = euidaccess L pathname mode
  interpose (Call.pread fd buf count offset) = pread L fd buf count offset
  interpose (Call.pwrite fd buf count offset) = pwrite L fd buf count offset
  interpose (Call.read fd buf count) = read L fd buf count
  interpose (Call.readlink pathname buf bufsiz) = readlink L pathname buf bufsiz
  interpose (Call.readlinkat dirfd pathname buf bufsiz) = readlinkat L dirfd pathname buf bufsiz
  interpose (Call.rename oldpath newpath) = rename L oldpath newpath
  interpose (Call.renameat olddirfd oldpath newdirfd newpath) =
      renameat L olddirfd oldpath newdirfd newpath
  interpose (Call.renameat2 olddirfd oldpath newdirfd newpath flags) =
      renameat2 L olddirfd oldpath newdirfd newpath flags
  interpose (Call.rmdir pathname) = rmdir L pathname
  interpose (Call.lstat pathname cstat) = lstat L pathname cstat
  interpose (Call.statx dirfd pathname flags mask statxbuf) =
      statx L dirfd pathname flags mask statxbuf
  interpose (Call.stat pathname cstat) = stat L pathname cstat
  interpose (Call.statfs path buf) = statfs L path buf
  interpose (Call.symlink target linkpath) = symlink L target linkpath
  interpose (Call.symlinkat target newdirfd linkpath) = symlinkat L target newdirfd linkpath
  interpose (Call.truncate pathname length) = truncate L pathname length
  interpose (Call.unlink pathname) = unlink L pathname
  interpose (Call.unlinkat dirfd pathname flags) = unlinkat L dirfd pathname flags
  interpose (Call.utimensat dirfd pathname times flags) = utimensat L dirfd pathname times flags
  interpose (Call.write fd buf count) = write L fd buf count
