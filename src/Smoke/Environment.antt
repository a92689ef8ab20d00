-- ===== src/Smoke/Environment.antt =====
-- What smoke/fixture.c asks of code that the library does not interpose, of its memory and of its
-- local variables: parameters of the model.
use ld_preload.Prelude.{ℕ, Bool, List, Option, Bytes, ℤ}
use ld_preload.Libc.{Word, PathArg}

-- The members of the structures that the fixture reads or writes.
pub data Field : Type 0 where
  st_size st_mode st_nlink st_mtime stx_mask stx_size f_bsize int_value : Field
  atime_sec atime_nsec mtime_sec mtime_nsec : Field

-- Code that the library does not interpose. `execv` answers -1 where it fails; where it succeeds it
-- does not return, and the answer is the status with which the new program ends. `report` is what `fprintf` writes to stderr and
-- `announce` what `printf` writes, with the whole text.
pub record Outside (W : Type 0) : Type 0 where
  pub errno : W → ℤ
  pub put_errno : ℤ → W → W
  pub report : Bytes → W → W
  pub announce : Bytes → W → W
  pub strerror : ℤ → Bytes
  pub literal : Bytes → Word
  pub load : Word → ℕ → W → Bytes
  pub string : Word → W → Bytes
  pub clear : Word → ℕ → W → W
  pub terminate : Word → ℤ → W → W
  pub field : Field → Word → W → Word
  pub put_field : Field → Word → Word → W → W
  pub mkdtemp : Bytes → W → Option Bytes × W
  pub chmod : PathArg → Word → W → ℤ × W
  pub setxattr : PathArg → Bytes → Bytes → ℕ → Word → W → ℤ × W
  pub getxattr : PathArg → Bytes → Word → ℕ → W → ℤ × W
  pub fgetxattr : ℤ → Bytes → Word → ℕ → W → ℤ × W
  pub lgetxattr : PathArg → Bytes → Word → ℕ → W → ℤ × W
  pub fork : W → ℤ × W
  pub waitpid : ℤ → Word → Word → W → ℤ × W
  pub execv : PathArg → List Bytes → W → ℤ × W
  pub fchdir : ℤ → W → ℤ × W
  pub syscall_openat2 : ℤ → PathArg → Word → Word → W → ℤ × W
  pub wifexited : Word → Bool
  pub wexitstatus : Word → Word
  pub wifsignaled : Word → Bool
  pub wtermsig : Word → Word
  pub wifstopped : Word → Bool
  pub wstopsig : Word → Word
  pub atoi : Bytes → ℤ

pub record Frame : Type 0 where
  pub buf : Word
  pub read_buf : Word
  pub st : Word
  pub stx : Word
  pub stfs : Word
  pub times : Word
  pub wait_status : Word
  pub how : Word
  pub exec_argv : Word
  pub exec_envp : Word

-- fcntl.h, unistd.h, errno.h and linux/stat.h
abbrev pub o_rdonly : Word
o_rdonly = 0

abbrev pub o_rdwr : Word
o_rdwr = 2

abbrev pub o_directory : Word
o_directory = 0o200000

abbrev pub o_cloexec : Word
o_cloexec = 0o2000000

abbrev pub f_ok : Word
f_ok = 0

abbrev pub w_ok : Word
w_ok = 2

abbrev pub r_ok : Word
r_ok = 4

abbrev pub enoent : ℤ
enoent = ℤ.pos 2

abbrev pub ebadf : ℤ
ebadf = ℤ.pos 9

abbrev pub eexist : ℤ
eexist = ℤ.pos 17

abbrev pub statx_mtime : Word
statx_mtime = 0x40

abbrev pub statx_size : Word
statx_size = 0x200
