-- ===== src/Interpose/Redirect.antt =====
-- The call that reaches libc in an initialised process, as a function of the policy and the call.
use ld_preload.Prelude.{some}
use ld_preload.Interpose.Callers.{ModeOk, effective_mode}
use ld_preload.Libc.{Call, PathArg}
use ld_preload.Path.Prefix.{Policy}
use ld_preload.Rewrite.Exact.{sent, IsShort, IsAbsolute}

-- NULL, or an absolute C string below PATH_MAX.
abbrev pub Reachable : PathArg → Type 0
Reachable path = IsShort path × IsAbsolute path

-- The call with each path where the policy sends it.
abbrev pub redirect : Policy → Call → Call
redirect policy (Call.fxstatat ver dirfd pathname cstat flags) =
    Call.fxstatat ver dirfd (sent policy pathname) cstat flags
redirect policy (Call.lxstat ver pathname cstat) = Call.lxstat ver (sent policy pathname) cstat
redirect policy (Call.xstat ver pathname cstat) = Call.xstat ver (sent policy pathname) cstat
redirect policy (Call.access pathname mode) = Call.access (sent policy pathname) mode
redirect policy (Call.chdir path) = Call.chdir (sent policy path)
redirect policy (Call.execve pathname argv envp) = Call.execve (sent policy pathname) argv envp
redirect policy (Call.creat pathname mode) = Call.creat (sent policy pathname) mode
redirect policy (Call.newfstatat dirfd pathname statbuf flags) =
    Call.newfstatat dirfd (sent policy pathname) statbuf flags
redirect policy (Call.faccessat dirfd pathname mode flags) =
    Call.faccessat dirfd (sent policy pathname) mode flags
redirect policy (Call.fchmodat dirfd pathname mode flags) =
    Call.fchmodat dirfd (sent policy pathname) mode flags
redirect policy (Call.link oldpath newpath) = Call.link (sent policy oldpath) (sent policy newpath)
redirect policy (Call.linkat olddirfd oldpath newdirfd newpath flags) =
    Call.linkat olddirfd (sent policy oldpath) newdirfd (sent policy newpath) flags
redirect policy (Call.mkdir pathname mode) = Call.mkdir (sent policy pathname) mode
redirect policy (Call.mkdirat dirfd pathname mode) = Call.mkdirat dirfd (sent policy pathname) mode
redirect policy (Call.open_path pathname flags mode) =
    Call.open_path (sent policy pathname) flags (some (effective_mode flags mode))
redirect policy (Call.openat dirfd pathname flags mode) =
    Call.openat dirfd (sent policy pathname) flags (some (effective_mode flags mode))
redirect policy (Call.openat2 dirfd pathname how size) =
    Call.openat2 dirfd (sent policy pathname) how size
redirect policy (Call.euidaccess pathname mode) = Call.euidaccess (sent policy pathname) mode
redirect policy (Call.readlink pathname buf bufsiz) =
    Call.readlink (sent policy pathname) buf bufsiz
redirect policy (Call.readlinkat dirfd pathname buf bufsiz) =
    Call.readlinkat dirfd (sent policy pathname) buf bufsiz
redirect policy (Call.rename oldpath newpath) =
    Call.rename (sent policy oldpath) (sent policy newpath)
redirect policy (Call.renameat olddirfd oldpath newdirfd newpath) =
    Call.renameat olddirfd (sent policy oldpath) newdirfd (sent policy newpath)
redirect policy (Call.renameat2 olddirfd oldpath newdirfd newpath flags) =
    Call.renameat2 olddirfd (sent policy oldpath) newdirfd (sent policy newpath) flags
redirect policy (Call.rmdir pathname) = Call.rmdir (sent policy pathname)
redirect policy (Call.lstat pathname cstat) = Call.lstat (sent policy pathname) cstat
redirect policy (Call.statx dirfd pathname flags mask statxbuf) =
    Call.statx dirfd (sent policy pathname) flags mask statxbuf
redirect policy (Call.stat pathname cstat) = Call.stat (sent policy pathname) cstat
redirect policy (Call.statfs path buf) = Call.statfs (sent policy path) buf
redirect policy (Call.symlinkat target newdirfd linkpath) =
    Call.symlinkat (sent policy target) newdirfd (sent policy linkpath)
redirect policy (Call.truncate pathname length) = Call.truncate (sent policy pathname) length
redirect policy (Call.unlink pathname) = Call.unlink (sent policy pathname)
redirect policy (Call.unlinkat dirfd pathname flags) =
    Call.unlinkat dirfd (sent policy pathname) flags
redirect policy (Call.utimensat dirfd pathname times flags) =
    Call.utimensat dirfd (sent policy pathname) times flags
redirect policy (Call.symlink target linkpath) =
    Call.symlink (sent policy target) (sent policy linkpath)
redirect policy c = c

-- What the caller has to provide: short paths, absolute ones where the wrapper resolves relative
-- ones, and the variadic mode.
abbrev pub Reaches : Call → Type 0
Reaches (Call.fxstatat ver dirfd pathname cstat flags) = Reachable pathname
Reaches (Call.lxstat ver pathname cstat) = IsShort pathname
Reaches (Call.xstat ver pathname cstat) = IsShort pathname
Reaches (Call.access pathname mode) = Reachable pathname
Reaches (Call.chdir path) = Reachable path
Reaches (Call.execve pathname argv envp) = Reachable pathname
Reaches (Call.creat pathname mode) = IsShort pathname
Reaches (Call.newfstatat dirfd pathname statbuf flags) = Reachable pathname
Reaches (Call.faccessat dirfd pathname mode flags) = Reachable pathname
Reaches (Call.fchmodat dirfd pathname mode flags) = Reachable pathname
Reaches (Call.link oldpath newpath) = Reachable oldpath × Reachable newpath
Reaches (Call.linkat olddirfd oldpath newdirfd newpath flags) =
    Reachable oldpath × Reachable newpath
Reaches (Call.mkdir pathname mode) = IsShort pathname
Reaches (Call.mkdirat dirfd pathname mode) = Reachable pathname
Reaches (Call.open_path pathname flags mode) = ModeOk flags mode × IsShort pathname
Reaches (Call.openat dirfd pathname flags mode) = ModeOk flags mode × Reachable pathname
Reaches (Call.openat2 dirfd pathname how size) = Reachable pathname
Reaches (Call.euidaccess pathname mode) = Reachable pathname
Reaches (Call.readlink pathname buf bufsiz) = IsShort pathname
Reaches (Call.readlinkat dirfd pathname buf bufsiz) = Reachable pathname
Reaches (Call.rename oldpath newpath) = Reachable oldpath × Reachable newpath
Reaches (Call.renameat olddirfd oldpath newdirfd newpath) = Reachable oldpath × Reachable newpath
Reaches (Call.renameat2 olddirfd oldpath newdirfd newpath flags) =
    Reachable oldpath × Reachable newpath
Reaches (Call.rmdir pathname) = IsShort pathname
Reaches (Call.lstat pathname cstat) = IsShort pathname
Reaches (Call.statx dirfd pathname flags mask statxbuf) = Reachable pathname
Reaches (Call.stat pathname cstat) = IsShort pathname
Reaches (Call.statfs path buf) = Reachable path
Reaches (Call.symlinkat target newdirfd linkpath) = IsShort target × Reachable linkpath
Reaches (Call.truncate pathname length) = IsShort pathname
Reaches (Call.unlink pathname) = IsShort pathname
Reaches (Call.unlinkat dirfd pathname flags) = Reachable pathname
Reaches (Call.utimensat dirfd pathname times flags) = Reachable pathname
Reaches (Call.symlink target linkpath) = IsShort target × Reachable linkpath
Reaches _ = Unit
