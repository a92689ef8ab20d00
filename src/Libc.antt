-- ===== src/Libc.antt =====
-- The libc entry points that rtld_linux.c interposes, and what it asks of the next object in the
-- search order. `__fxstat` and its kin are written without the underscores, `open` as `open_path`.
use ld_preload.Prelude.{ℕ, Bool, Option, Bytes, ℤ}

-- An argument that is only passed on: an integer as its bit pattern, or a pointer.
abbrev pub Word : Type 0
Word = ℕ

-- A `const char *`; `NULL` is `none`.
abbrev pub PathArg : Type 0
PathArg = Option Bytes

-- `AT_FDCWD` of fcntl.h is -100, `ENOSYS` of errno.h is 38.
abbrev pub at_fdcwd : ℤ
at_fdcwd = ℤ.negsuc 99

abbrev pub enosys : ℕ
enosys = 38

-- The names that `resolve_symbols` looks up.
pub data Symbol : Type 0 where
  fxstat fxstatat lxstat xstat access chdir execve close creat fstat newfstatat faccessat : Symbol
  fchmodat link linkat lseek mkdir mkdirat open_path openat openat2 euidaccess pread : Symbol
  pwrite read readlink readlinkat rename renameat renameat2 rmdir lstat statx stat statfs : Symbol
  symlink symlinkat truncate unlink unlinkat utimensat write getcwd : Symbol

-- A call with its arguments, `getcwd` apart. The last argument of `open` and `openat` is variadic:
-- `none` if the caller passes none.
pub data Call : Type 0 where
  fxstat : Word → ℤ → Word → Call
  fxstatat : Word → ℤ → PathArg → Word → Word → Call
  lxstat : Word → PathArg → Word → Call
  xstat : Word → PathArg → Word → Call
  access : PathArg → Word → Call
  chdir : PathArg → Call
  execve : PathArg → Word → Word → Call
  close : ℤ → Call
  creat : PathArg → Word → Call
  fstat : ℤ → Word → Call
  newfstatat : ℤ → PathArg → Word → Word → Call
  faccessat : ℤ → PathArg → Word → Word → Call
  fchmodat : ℤ → PathArg → Word → Word → Call
  link : PathArg → PathArg → Call
  linkat : ℤ → PathArg → ℤ → PathArg → Word → Call
  lseek : ℤ → Word → Word → Call
  mkdir : PathArg → Word → Call
  mkdirat : ℤ → PathArg → Word → Call
  open_path : PathArg → Word → Option Word → Call
  openat : ℤ → PathArg → Word → Option Word → Call
  openat2 : ℤ → PathArg → Word → Word → Call
  euidaccess : PathArg → Word → Call
  pread : ℤ → Word → Word → Word → Call
  pwrite : ℤ → Word → Word → Word → Call
  read : ℤ → Word → Word → Call
  readlink : PathArg → Word → Word → Call
  readlinkat : ℤ → PathArg → Word → Word → Call
  rename : PathArg → PathArg → Call
  renameat : ℤ → PathArg → ℤ → PathArg → Call
  renameat2 : ℤ → PathArg → ℤ → PathArg → Word → Call
  rmdir : PathArg → Call
  lstat : PathArg → Word → Call
  statx : ℤ → PathArg → Word → Word → Word → Call
  stat : PathArg → Word → Call
  statfs : PathArg → Word → Call
  symlink : PathArg → PathArg → Call
  symlinkat : PathArg → ℤ → PathArg → Call
  truncate : PathArg → Word → Call
  unlink : PathArg → Call
  unlinkat : ℤ → PathArg → Word → Call
  utimensat : ℤ → PathArg → Word → Word → Call
  write : ℤ → Word → Word → Call

abbrev pub symbol : Call → Symbol
symbol (Call.fxstat ver fd cstat) = Symbol.fxstat
symbol (Call.fxstatat ver dirfd pathname cstat flags) = Symbol.fxstatat
symbol (Call.lxstat ver pathname cstat) = Symbol.lxstat
symbol (Call.xstat ver pathname cstat) = Symbol.xstat
symbol (Call.access pathname mode) = Symbol.access
symbol (Call.chdir path) = Symbol.chdir
symbol (Call.execve pathname argv envp) = Symbol.execve
symbol (Call.close fd) = Symbol.close
symbol (Call.creat pathname mode) = Symbol.creat
symbol (Call.fstat fd cstat) = Symbol.fstat
symbol (Call.newfstatat dirfd pathname statbuf flags) = Symbol.newfstatat
symbol (Call.faccessat dirfd pathname mode flags) = Symbol.faccessat
symbol (Call.fchmodat dirfd pathname mode flags) = Symbol.fchmodat
symbol (Call.link oldpath newpath) = Symbol.link
symbol (Call.linkat olddirfd oldpath newdirfd newpath flags) = Symbol.linkat
symbol (Call.lseek fd offset whence) = Symbol.lseek
symbol (Call.mkdir pathname mode) = Symbol.mkdir
symbol (Call.mkdirat dirfd pathname mode) = Symbol.mkdirat
symbol (Call.open_path pathname flags mode) = Symbol.open_path
symbol (Call.openat dirfd pathname flags mode) = Symbol.openat
symbol (Call.openat2 dirfd pathname how size) = Symbol.openat2
symbol (Call.euidaccess pathname mode) = Symbol.euidaccess
symbol (Call.pread fd buf count offset) = Symbol.pread
symbol (Call.pwrite fd buf count offset) = Symbol.pwrite
symbol (Call.read fd buf count) = Symbol.read
symbol (Call.readlink pathname buf bufsiz) = Symbol.readlink
symbol (Call.readlinkat dirfd pathname buf bufsiz) = Symbol.readlinkat
symbol (Call.rename oldpath newpath) = Symbol.rename
symbol (Call.renameat olddirfd oldpath newdirfd newpath) = Symbol.renameat
symbol (Call.renameat2 olddirfd oldpath newdirfd newpath flags) = Symbol.renameat2
symbol (Call.rmdir pathname) = Symbol.rmdir
symbol (Call.lstat pathname cstat) = Symbol.lstat
symbol (Call.statx dirfd pathname flags mask statxbuf) = Symbol.statx
symbol (Call.stat pathname cstat) = Symbol.stat
symbol (Call.statfs path buf) = Symbol.statfs
symbol (Call.symlink target linkpath) = Symbol.symlink
symbol (Call.symlinkat target newdirfd linkpath) = Symbol.symlinkat
symbol (Call.truncate pathname length) = Symbol.truncate
symbol (Call.unlink pathname) = Symbol.unlink
symbol (Call.unlinkat dirfd pathname flags) = Symbol.unlinkat
symbol (Call.utimensat dirfd pathname times flags) = Symbol.utimensat
symbol (Call.write fd buf count) = Symbol.write

-- The environment, the dynamic linker and the real functions, over the states `W` of the world.
-- `getcwd` and `readlink` are those functions as the rewriting calls them: what they put into a
-- buffer of that size, or `none` for a failure. `call` is every other call: it may do anything.
-- `right_first` is the compiler's choice for an exported function that rewrites two paths as the
-- arguments of one call, since C leaves open which of the two is evaluated first.
pub record Libc (W : Type 0) : Type 0 where
  pub getenv : W → Bytes → Option Bytes
  pub dlsym : W → Symbol → Bool
  pub getcwd : ℕ → W → Option Bytes × W
  pub readlink : Bytes → ℕ → W → Option Bytes × W
  pub call : Call → W → ℤ × W
  pub set_errno : ℕ → W → W
  pub right_first : Symbol → Bool
