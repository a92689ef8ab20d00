-- ===== src/Interpose/Plain.antt =====
-- rtld_linux.c, the exported functions that take a descriptor and no path.
use ld_preload.Prelude.{ℤ}
use ld_preload.Libc.{Libc, Word}
use ld_preload.Orig.{
  orig_fxstat, orig_close, orig_fstat, orig_lseek, orig_pread, orig_pwrite, orig_read, orig_write,
}
use ld_preload.Process.{M}

module _ {W : Type 0} (L : Libc W) where
  unfoldable pub fxstat : Word → ℤ → Word → M W ℤ
  fxstat ver fd cstat = orig_fxstat L ver fd cstat

  unfoldable pub close : ℤ → M W ℤ
  close fd = orig_close L fd

  unfoldable pub fstat : ℤ → Word → M W ℤ
  fstat fd cstat = orig_fstat L fd cstat

  unfoldable pub lseek : ℤ → Word → Word → M W ℤ
  lseek fd offset whence = orig_lseek L fd offset whence

  unfoldable pub pread : ℤ → Word → Word → Word → M W ℤ
  pread fd buf count offset = orig_pread L fd buf count offset

  unfoldable pub pwrite : ℤ → Word → Word → Word → M W ℤ
  pwrite fd buf count offset = orig_pwrite L fd buf count offset

  unfoldable pub read : ℤ → Word → Word → M W ℤ
  read fd buf count = orig_read L fd buf count

  unfoldable pub write : ℤ → Word → Word → M W ℤ
  write fd buf count = orig_write L fd buf count
