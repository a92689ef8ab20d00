-- ===== src/Interpose/Kinds.antt =====
-- A call that is redirected, or given its mode, is of the same kind.
use ld_preload.Prelude.{◌≡◌, refl}
use ld_preload.Interpose.Disabled.{settle}
use ld_preload.Interpose.Redirect.{redirect}
use ld_preload.Libc.{Call, symbol}
use ld_preload.Path.Prefix.{Policy}

pub symbol-redirect : (policy : Policy) (call : Call) → symbol (redirect policy call) ≡ symbol call
symbol-redirect policy (Call.fxstat a b c) = refl
symbol-redirect policy (Call.fxstatat a b c d e) = refl
symbol-redirect policy (Call.lxstat a b c) = refl
symbol-redirect policy (Call.xstat a b c) = refl
symbol-redirect policy (Call.access a b) = refl
symbol-redirect policy (Call.chdir a) = refl
symbol-redirect policy (Call.execve a b c) = refl
symbol-redirect policy (Call.close a) = refl
symbol-redirect policy (Call.creat a b) = refl
symbol-redirect policy (Call.fstat a b) = refl
symbol-redirect policy (Call.newfstatat a b c d) = refl
symbol-redirect policy (Call.faccessat a b c d) = refl
symbol-redirect policy (Call.fchmodat a b c d) = refl
symbol-redirect policy (Call.link a b) = refl
symbol-redirect policy (Call.linkat a b c d e) = refl
symbol-redirect policy (Call.lseek a b c) = refl
symbol-redirect policy (Call.mkdir a b) = refl
symbol-redirect policy (Call.mkdirat a b c) = refl
symbol-redirect policy (Call.open_path a b c) = refl
symbol-redirect policy (Call.openat a b c d) = refl
symbol-redirect policy (Call.openat2 a b c d) = refl
symbol-redirect policy (Call.euidaccess a b) = refl
symbol-redirect policy (Call.pread a b c d) = refl
symbol-redirect policy (Call.pwrite a b c d) = refl
symbol-redirect policy (Call.read a b c) = refl
symbol-redirect policy (Call.readlink a b c) = refl
symbol-redirect policy (Call.readlinkat a b c d) = refl
symbol-redirect policy (Call.rename a b) = refl
symbol-redirect policy (Call.renameat a b c d) = refl
symbol-redirect policy (Call.renameat2 a b c d e) = refl
symbol-redirect policy (Call.rmdir a) = refl
symbol-redirect policy (Call.lstat a b) = refl
symbol-redirect policy (Call.statx a b c d e) = refl
symbol-redirect policy (Call.stat a b) = refl
symbol-redirect policy (Call.statfs a b) = refl
symbol-redirect policy (Call.symlink a b) = refl
symbol-redirect policy (Call.symlinkat a b c) = refl
symbol-redirect policy (Call.truncate a b) = refl
symbol-redirect policy (Call.unlink a) = refl
symbol-redirect policy (Call.unlinkat a b c) = refl
symbol-redirect policy (Call.utimensat a b c d) = refl
symbol-redirect policy (Call.write a b c) = refl

pub symbol-settle : (call : Call) → symbol (settle call) ≡ symbol call
symbol-settle (Call.fxstat a b c) = refl
symbol-settle (Call.fxstatat a b c d e) = refl
symbol-settle (Call.lxstat a b c) = refl
symbol-settle (Call.xstat a b c) = refl
symbol-settle (Call.access a b) = refl
symbol-settle (Call.chdir a) = refl
symbol-settle (Call.execve a b c) = refl
symbol-settle (Call.close a) = refl
symbol-settle (Call.creat a b) = refl
symbol-settle (Call.fstat a b) = refl
symbol-settle (Call.newfstatat a b c d) = refl
symbol-settle (Call.faccessat a b c d) = refl
symbol-settle (Call.fchmodat a b c d) = refl
symbol-settle (Call.link a b) = refl
symbol-settle (Call.linkat a b c d e) = refl
symbol-settle (Call.lseek a b c) = refl
symbol-settle (Call.mkdir a b) = refl
symbol-settle (Call.mkdirat a b c) = refl
symbol-settle (Call.open_path a b c) = refl
symbol-settle (Call.openat a b c d) = refl
symbol-settle (Call.openat2 a b c d) = refl
symbol-settle (Call.euidaccess a b) = refl
symbol-settle (Call.pread a b c d) = refl
symbol-settle (Call.pwrite a b c d) = refl
symbol-settle (Call.read a b c) = refl
symbol-settle (Call.readlink a b c) = refl
symbol-settle (Call.readlinkat a b c d) = refl
symbol-settle (Call.rename a b) = refl
symbol-settle (Call.renameat a b c d) = refl
symbol-settle (Call.renameat2 a b c d e) = refl
symbol-settle (Call.rmdir a) = refl
symbol-settle (Call.lstat a b) = refl
symbol-settle (Call.statx a b c d e) = refl
symbol-settle (Call.stat a b) = refl
symbol-settle (Call.statfs a b) = refl
symbol-settle (Call.symlink a b) = refl
symbol-settle (Call.symlinkat a b c) = refl
symbol-settle (Call.truncate a b) = refl
symbol-settle (Call.unlink a) = refl
symbol-settle (Call.unlinkat a b c) = refl
symbol-settle (Call.utimensat a b c d) = refl
symbol-settle (Call.write a b c) = refl
