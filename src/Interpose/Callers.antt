-- ===== src/Interpose/Callers.antt =====
-- What the caller of an exported function has to provide.
use Prim.Native.Nat.{bit_and, bit_or}
use ld_preload.Prelude.{true, Option, none, some, ◌≡◌, ◌==◌, if◌then◌else◌}
use ld_preload.Libc.{Call, Word}
use ld_preload.Process.{o_creat, o_tmpfile}
use ld_preload.Rewrite.Laws.{PathOk}

-- The mode that `open` and `openat` pass on.
abbrev pub effective_mode : Word → Option Word → Word
effective_mode flags none = 0
effective_mode flags (some mode) = if bit_and flags (bit_or o_creat o_tmpfile) == 0 then 0 else mode

-- A caller gives a mode whenever the flags have a bit of O_CREAT or O_TMPFILE.
abbrev pub ModeOk : Word → Option Word → Type 0
ModeOk flags none = (bit_and flags (bit_or o_creat o_tmpfile) == 0) ≡ true
ModeOk flags (some mode) = Unit

-- What a caller has to provide.
abbrev pub CallOk : Call → Type 0
CallOk (Call.fxstat ver fd cstat) = Unit
CallOk (Call.fxstatat ver dirfd pathname cstat flags) = PathOk pathname
CallOk (Call.lxstat ver pathname cstat) = PathOk pathname
CallOk (Call.xstat ver pathname cstat) = PathOk pathname
CallOk (Call.access pathname mode) = PathOk pathname
CallOk (Call.chdir path) = PathOk path
CallOk (Call.execve pathname argv envp) = PathOk pathname
CallOk (Call.close fd) = Unit
CallOk (Call.creat pathname mode) = PathOk pathname
CallOk (Call.fstat fd cstat) = Unit
CallOk (Call.newfstatat dirfd pathname statbuf flags) = PathOk pathname
CallOk (Call.faccessat dirfd pathname mode flags) = PathOk pathname
CallOk (Call.fchmodat dirfd pathname mode flags) = PathOk pathname
CallOk (Call.link oldpath newpath) = PathOk oldpath × PathOk newpath
CallOk (Call.linkat olddirfd oldpath newdirfd newpath flags) = PathOk oldpath × PathOk newpath
CallOk (Call.lseek fd offset whence) = Unit
CallOk (Call.mkdir pathname mode) = PathOk pathname
CallOk (Call.mkdirat dirfd pathname mode) = PathOk pathname
CallOk (Call.open_path pathname flags mode) = PathOk pathname × ModeOk flags mode
CallOk (Call.openat dirfd pathname flags mode) = PathOk pathname × ModeOk flags mode
CallOk (Call.openat2 dirfd pathname how size) = PathOk pathname
CallOk (Call.euidaccess pathname mode) = PathOk pathname
CallOk (Call.pread fd buf count offset) = Unit
CallOk (Call.pwrite fd buf count offset) = Unit
CallOk (Call.read fd buf count) = Unit
CallOk (Call.readlink pathname buf bufsiz) = PathOk pathname
CallOk (Call.readlinkat dirfd pathname buf bufsiz) = PathOk pathname
CallOk (Call.rename oldpath newpath) = PathOk oldpath × PathOk newpath
CallOk (Call.renameat olddirfd oldpath newdirfd newpath) = PathOk oldpath × PathOk newpath
CallOk (Call.renameat2 olddirfd oldpath newdirfd newpath flags) = PathOk oldpath × PathOk newpath
CallOk (Call.rmdir pathname) = PathOk pathname
CallOk (Call.lstat pathname cstat) = PathOk pathname
CallOk (Call.statx dirfd pathname flags mask statxbuf) = PathOk pathname
CallOk (Call.stat pathname cstat) = PathOk pathname
CallOk (Call.statfs path buf) = PathOk path
CallOk (Call.symlink target linkpath) = PathOk target × PathOk linkpath
CallOk (Call.symlinkat target newdirfd linkpath) = PathOk target × PathOk linkpath
CallOk (Call.truncate pathname length) = PathOk pathname
CallOk (Call.unlink pathname) = PathOk pathname
CallOk (Call.unlinkat dirfd pathname flags) = PathOk pathname
CallOk (Call.utimensat dirfd pathname times flags) = PathOk pathname
CallOk (Call.write fd buf count) = Unit
