-- ===== src/Interpose/Forwards.antt =====
-- The exported functions and the real call that each makes.
use ld_preload.Prelude.{some}
use ld_preload.Interpose.Dispatch.{interpose}
use ld_preload.Interpose.Forwarding.{Forwarded}
use ld_preload.Interpose.Calls.{
  plain_call, absolute_call, mode_absolute_call, cwd_call, cwd_pair_call, at_call, mode_at_call,
  at_pair_call, symlink_call, symlinkat_call,
}
use ld_preload.Interpose.Passes.{Passes}
use ld_preload.Interpose.Callers.{CallOk}
use ld_preload.Libc.{Libc, Call, Symbol}
use ld_preload.Process.{Process}
use ld_preload.Process.Laws.{IsLibc, IsSound, Runs}

module _ {W : Type 0} (L : Libc W) (l : IsLibc L) where
  -- In a sound process, and given C strings and a mode where the flags ask for one, every exported
  -- function but `getcwd` comes to an end with no access outside an object. Its result and the last
  -- state are those of the real call of the same kind (or of ENOSYS where there is none) with the
  -- same arguments, but for each path, and the descriptor it is below, which are as `Passes` says.
  pub interpose-Forwarded :
      (c : Call) (p : Process W)
      → IsSound p.rewrite_policy
      → CallOk c
      → Runs (Forwarded L p c) (interpose L c) p
  unfolding interpose
  interpose-Forwarded (Call.fxstat ver fd cstat) p s h =
      plain_call L l (Call.fxstat ver fd cstat) p s Passes.fxstat
  interpose-Forwarded (Call.fxstatat ver dirfd pathname cstat flags) p s h =
      at_call L l dirfd pathname (λ d b. Call.fxstatat ver d b cstat flags)
        (λ _ d b q r. Passes.fxstatat r) p s h
  interpose-Forwarded (Call.lxstat ver pathname cstat) p s h =
      absolute_call L l pathname (λ b. Call.lxstat ver b cstat) (λ _ b q r. Passes.lxstat r) p s h
  interpose-Forwarded (Call.xstat ver pathname cstat) p s h =
      absolute_call L l pathname (λ b. Call.xstat ver b cstat) (λ _ b q r. Passes.xstat r) p s h
  interpose-Forwarded (Call.access pathname mode) p s h =
      cwd_call L l pathname (λ b. Call.access b mode) (λ _ b q r. Passes.access r) p s h
  interpose-Forwarded (Call.chdir path) p s h =
      cwd_call L l path (λ b. Call.chdir b) (λ _ b q r. Passes.chdir r) p s h
  interpose-Forwarded (Call.execve pathname argv envp) p s h =
      cwd_call L l pathname (λ b. Call.execve b argv envp) (λ _ b q r. Passes.execve r) p s h
  interpose-Forwarded (Call.close fd) p s h = plain_call L l (Call.close fd) p s Passes.close
  interpose-Forwarded (Call.creat pathname mode) p s h =
      absolute_call L l pathname (λ b. Call.creat b mode) (λ _ b q r. Passes.creat r) p s h
  interpose-Forwarded (Call.fstat fd cstat) p s h =
      plain_call L l (Call.fstat fd cstat) p s Passes.fstat
  interpose-Forwarded (Call.newfstatat dirfd pathname statbuf flags) p s h =
      at_call L l dirfd pathname (λ d b. Call.newfstatat d b statbuf flags)
        (λ _ d b q r. Passes.newfstatat r) p s h
  interpose-Forwarded (Call.faccessat dirfd pathname mode flags) p s h =
      at_call L l dirfd pathname (λ d b. Call.faccessat d b mode flags)
        (λ _ d b q r. Passes.faccessat r) p s h
  interpose-Forwarded (Call.fchmodat dirfd pathname mode flags) p s h =
      at_call L l dirfd pathname (λ d b. Call.fchmodat d b mode flags)
        (λ _ d b q r. Passes.fchmodat r) p s h
  interpose-Forwarded (Call.link oldpath newpath) p s h =
      cwd_pair_call L l (L.right_first Symbol.link) oldpath newpath (λ a b. Call.link a b)
        (λ _ a b q r. Passes.link r) p s h
  interpose-Forwarded (Call.linkat olddirfd oldpath newdirfd newpath flags) p s h =
      at_pair_call L l olddirfd oldpath newdirfd newpath (λ d a e b. Call.linkat d a e b flags)
        (λ _ d a e b u q r t. Passes.linkat u r t) p s h
  interpose-Forwarded (Call.lseek fd offset whence) p s h =
      plain_call L l (Call.lseek fd offset whence) p s Passes.lseek
  interpose-Forwarded (Call.mkdir pathname mode) p s h =
      absolute_call L l pathname (λ b. Call.mkdir b mode) (λ _ b q r. Passes.mkdir r) p s h
  interpose-Forwarded (Call.mkdirat dirfd pathname mode) p s h =
      at_call L l dirfd pathname (λ d b. Call.mkdirat d b mode) (λ _ d b q r. Passes.mkdirat r) p s
        h
  interpose-Forwarded (Call.open_path pathname flags mode) p s h =
      mode_absolute_call L l pathname flags mode (λ m b. Call.open_path b flags (some m))
        (λ _ b q r. Passes.open_path r) p s h
  interpose-Forwarded (Call.openat dirfd pathname flags mode) p s h =
      mode_at_call L l dirfd pathname flags mode (λ m d b. Call.openat d b flags (some m))
        (λ _ d b q r. Passes.openat r) p s h
  interpose-Forwarded (Call.openat2 dirfd pathname how size) p s h =
      at_call L l dirfd pathname (λ d b. Call.openat2 d b how size) (λ _ d b q r. Passes.openat2 r)
        p s h
  interpose-Forwarded (Call.euidaccess pathname mode) p s h =
      cwd_call L l pathname (λ b. Call.euidaccess b mode) (λ _ b q r. Passes.euidaccess r) p s h
  interpose-Forwarded (Call.pread fd buf count offset) p s h =
      plain_call L l (Call.pread fd buf count offset) p s Passes.pread
  interpose-Forwarded (Call.pwrite fd buf count offset) p s h =
      plain_call L l (Call.pwrite fd buf count offset) p s Passes.pwrite
  interpose-Forwarded (Call.read fd buf count) p s h =
      plain_call L l (Call.read fd buf count) p s Passes.read
  interpose-Forwarded (Call.readlink pathname buf bufsiz) p s h =
      absolute_call L l pathname (λ b. Call.readlink b buf bufsiz) (λ _ b q r. Passes.readlink r) p
        s h
  interpose-Forwarded (Call.readlinkat dirfd pathname buf bufsiz) p s h =
      at_call L l dirfd pathname (λ d b. Call.readlinkat d b buf bufsiz)
        (λ _ d b q r. Passes.readlinkat r) p s h
  interpose-Forwarded (Call.rename oldpath newpath) p s h =
      cwd_pair_call L l (L.right_first Symbol.rename) oldpath newpath (λ a b. Call.rename a b)
        (λ _ a b q r. Passes.rename r) p s h
  interpose-Forwarded (Call.renameat olddirfd oldpath newdirfd newpath) p s h =
      at_pair_call L l olddirfd oldpath newdirfd newpath (λ d a e b. Call.renameat d a e b)
        (λ _ d a e b u q r t. Passes.renameat u r t) p s h
  interpose-Forwarded (Call.renameat2 olddirfd oldpath newdirfd newpath flags) p s h =
      at_pair_call L l olddirfd oldpath newdirfd newpath (λ d a e b. Call.renameat2 d a e b flags)
        (λ _ d a e b u q r t. Passes.renameat2 u r t) p s h
  interpose-Forwarded (Call.rmdir pathname) p s h =
      absolute_call L l pathname (λ b. Call.rmdir b) (λ _ b q r. Passes.rmdir r) p s h
  interpose-Forwarded (Call.lstat pathname cstat) p s h =
      absolute_call L l pathname (λ b. Call.lstat b cstat) (λ _ b q r. Passes.lstat r) p s h
  interpose-Forwarded (Call.statx dirfd pathname flags mask statxbuf) p s h =
      at_call L l dirfd pathname (λ d b. Call.statx d b flags mask statxbuf)
        (λ _ d b q r. Passes.statx r) p s h
  interpose-Forwarded (Call.stat pathname cstat) p s h =
      absolute_call L l pathname (λ b. Call.stat b cstat) (λ _ b q r. Passes.stat r) p s h
  interpose-Forwarded (Call.statfs path buf) p s h =
      cwd_call L l path (λ b. Call.statfs b buf) (λ _ b q r. Passes.statfs r) p s h
  interpose-Forwarded (Call.symlink target linkpath) p s h = symlink_call L l target linkpath p s h
  interpose-Forwarded (Call.symlinkat target newdirfd linkpath) p s h =
      symlinkat_call L l target newdirfd linkpath p s h
  interpose-Forwarded (Call.truncate pathname length) p s h =
      absolute_call L l pathname (λ b. Call.truncate b length) (λ _ b q r. Passes.truncate r) p s h
  interpose-Forwarded (Call.unlink pathname) p s h =
      absolute_call L l pathname (λ b. Call.unlink b) (λ _ b q r. Passes.unlink r) p s h
  interpose-Forwarded (Call.unlinkat dirfd pathname flags) p s h =
      at_call L l dirfd pathname (λ d b. Call.unlinkat d b flags) (λ _ d b q r. Passes.unlinkat r) p
        s h
  interpose-Forwarded (Call.utimensat dirfd pathname times flags) p s h =
      at_call L l dirfd pathname (λ d b. Call.utimensat d b times flags)
        (λ _ d b q r. Passes.utimensat r) p s h
  interpose-Forwarded (Call.write fd buf count) p s h =
      plain_call L l (Call.write fd buf count) p s Passes.write
