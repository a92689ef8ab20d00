-- ===== src/Interpose/Passes.antt =====
-- Which real call an exported function makes, stated apart from how the code goes about it.
use ld_preload.Prelude.{Option, some, ℤ}
use ld_preload.Interpose.Callers.{effective_mode}
use ld_preload.Libc.{Libc, Call, Symbol, Word, PathArg}
use ld_preload.Process.{Process}
use ld_preload.Rewrite.Relations.{AbsoluteArg, CwdArg, AtArg, BothArg}

module _ {W : Type 0} (L : Libc W) where
  -- With the process `p` at the entry the first call is passed on as the second, in the last process.
  -- The second of two paths is rewritten in the process that the rewriting of the first leaves.
  pub data Passes (p : Process W) : Call → Call → Process W → Type 0 where
    fxstat :
        {fd : ℤ} {ver cstat : Word}
        → Passes p (Call.fxstat ver fd cstat) (Call.fxstat ver fd cstat) p
    fxstatat :
        {q : Process W} {dirfd dirfd' : ℤ} {pathname pathname' : PathArg} {ver cstat flags : Word}
        → AtArg L p dirfd pathname dirfd' pathname' q
        → Passes p
            (Call.fxstatat ver dirfd pathname cstat flags)
            (Call.fxstatat ver dirfd' pathname' cstat flags)
            q
    lxstat :
        {q : Process W} {pathname pathname' : PathArg} {ver cstat : Word}
        → AbsoluteArg L p pathname pathname' q
        → Passes p (Call.lxstat ver pathname cstat) (Call.lxstat ver pathname' cstat) q
    xstat :
        {q : Process W} {pathname pathname' : PathArg} {ver cstat : Word}
        → AbsoluteArg L p pathname pathname' q
        → Passes p (Call.xstat ver pathname cstat) (Call.xstat ver pathname' cstat) q
    access :
        {q : Process W} {pathname pathname' : PathArg} {mode : Word}
        → CwdArg L p pathname pathname' q
        → Passes p (Call.access pathname mode) (Call.access pathname' mode) q
    chdir :
        {q : Process W} {path path' : PathArg}
        → CwdArg L p path path' q
        → Passes p (Call.chdir path) (Call.chdir path') q
    execve :
        {q : Process W} {pathname pathname' : PathArg} {argv envp : Word}
        → CwdArg L p pathname pathname' q
        → Passes p (Call.execve pathname argv envp) (Call.execve pathname' argv envp) q
    close : {fd : ℤ} → Passes p (Call.close fd) (Call.close fd) p
    creat :
        {q : Process W} {pathname pathname' : PathArg} {mode : Word}
        → AbsoluteArg L p pathname pathname' q
        → Passes p (Call.creat pathname mode) (Call.creat pathname' mode) q
    fstat : {fd : ℤ} {cstat : Word} → Passes p (Call.fstat fd cstat) (Call.fstat fd cstat) p
    newfstatat :
        {q : Process W} {dirfd dirfd' : ℤ} {pathname pathname' : PathArg} {statbuf flags : Word}
        → AtArg L p dirfd pathname dirfd' pathname' q
        → Passes p
            (Call.newfstatat dirfd pathname statbuf flags)
            (Call.newfstatat dirfd' pathname' statbuf flags)
            q
    faccessat :
        {q : Process W} {dirfd dirfd' : ℤ} {pathname pathname' : PathArg} {mode flags : Word}
        → AtArg L p dirfd pathname dirfd' pathname' q
        → Passes p
            (Call.faccessat dirfd pathname mode flags)
            (Call.faccessat dirfd' pathname' mode flags)
            q
    fchmodat :
        {q : Process W} {dirfd dirfd' : ℤ} {pathname pathname' : PathArg} {mode flags : Word}
        → AtArg L p dirfd pathname dirfd' pathname' q
        → Passes p
            (Call.fchmodat dirfd pathname mode flags)
            (Call.fchmodat dirfd' pathname' mode flags)
            q
    link :
        {q : Process W} {oldpath newpath oldpath' newpath' : PathArg}
        → BothArg L (L.right_first Symbol.link) p oldpath newpath oldpath' newpath' q
        → Passes p (Call.link oldpath newpath) (Call.link oldpath' newpath') q
    linkat :
        {q : Process W} (u : Process W) {olddirfd newdirfd olddirfd' newdirfd' : ℤ}
        {oldpath newpath oldpath' newpath' : PathArg} {flags : Word}
        → AtArg L p olddirfd oldpath olddirfd' oldpath' u
        → AtArg L u newdirfd newpath newdirfd' newpath' q
        → Passes p
            (Call.linkat olddirfd oldpath newdirfd newpath flags)
            (Call.linkat olddirfd' oldpath' newdirfd' newpath' flags)
            q
    lseek :
        {fd : ℤ} {offset whence : Word}
        → Passes p (Call.lseek fd offset whence) (Call.lseek fd offset whence) p
    mkdir :
        {q : Process W} {pathname pathname' : PathArg} {mode : Word}
        → AbsoluteArg L p pathname pathname' q
        → Passes p (Call.mkdir pathname mode) (Call.mkdir pathname' mode) q
    mkdirat :
        {q : Process W} {dirfd dirfd' : ℤ} {pathname pathname' : PathArg} {mode : Word}
        → AtArg L p dirfd pathname dirfd' pathname' q
        → Passes p (Call.mkdirat dirfd pathname mode) (Call.mkdirat dirfd' pathname' mode) q
    open_path :
        {q : Process W} {pathname pathname' : PathArg} {flags : Word} {mode : Option Word}
        → AbsoluteArg L p pathname pathname' q
        → Passes p
            (Call.open_path pathname flags mode)
            (Call.open_path pathname' flags (some (effective_mode flags mode)))
            q
    openat :
        {q : Process W} {dirfd dirfd' : ℤ} {pathname pathname' : PathArg} {flags : Word}
        {mode : Option Word}
        → AtArg L p dirfd pathname dirfd' pathname' q
        → Passes p
            (Call.openat dirfd pathname flags mode)
            (Call.openat dirfd' pathname' flags (some (effective_mode flags mode)))
            q
    openat2 :
        {q : Process W} {dirfd dirfd' : ℤ} {pathname pathname' : PathArg} {how size : Word}
        → AtArg L p dirfd pathname dirfd' pathname' q
        → Passes p (Call.openat2 dirfd pathname how size) (Call.openat2 dirfd' pathname' how size) q
    euidaccess :
        {q : Process W} {pathname pathname' : PathArg} {mode : Word}
        → CwdArg L p pathname pathname' q
        → Passes p (Call.euidaccess pathname mode) (Call.euidaccess pathname' mode) q
    pread :
        {fd : ℤ} {buf count offset : Word}
        → Passes p (Call.pread fd buf count offset) (Call.pread fd buf count offset) p
    pwrite :
        {fd : ℤ} {buf count offset : Word}
        → Passes p (Call.pwrite fd buf count offset) (Call.pwrite fd buf count offset) p
    read :
        {fd : ℤ} {buf count : Word} → Passes p (Call.read fd buf count) (Call.read fd buf count) p
    readlink :
        {q : Process W} {pathname pathname' : PathArg} {buf bufsiz : Word}
        → AbsoluteArg L p pathname pathname' q
        → Passes p (Call.readlink pathname buf bufsiz) (Call.readlink pathname' buf bufsiz) q
    readlinkat :
        {q : Process W} {dirfd dirfd' : ℤ} {pathname pathname' : PathArg} {buf bufsiz : Word}
        → AtArg L p dirfd pathname dirfd' pathname' q
        → Passes p
            (Call.readlinkat dirfd pathname buf bufsiz)
            (Call.readlinkat dirfd' pathname' buf bufsiz)
            q
    rename :
        {q : Process W} {oldpath newpath oldpath' newpath' : PathArg}
        → BothArg L (L.right_first Symbol.rename) p oldpath newpath oldpath' newpath' q
        → Passes p (Call.rename oldpath newpath) (Call.rename oldpath' newpath') q
    renameat :
        {q : Process W} (u : Process W) {olddirfd newdirfd olddirfd' newdirfd' : ℤ}
        {oldpath newpath oldpath' newpath' : PathArg}
        → AtArg L p olddirfd oldpath olddirfd' oldpath' u
        → AtArg L u newdirfd newpath newdirfd' newpath' q
        → Passes p
            (Call.renameat olddirfd oldpath newdirfd newpath)
            (Call.renameat olddirfd' oldpath' newdirfd' newpath')
            q
    renameat2 :
        {q : Process W} (u : Process W) {olddirfd newdirfd olddirfd' newdirfd' : ℤ}
        {oldpath newpath oldpath' newpath' : PathArg} {flags : Word}
        → AtArg L p olddirfd oldpath olddirfd' oldpath' u
        → AtArg L u newdirfd newpath newdirfd' newpath' q
        → Passes p
            (Call.renameat2 olddirfd oldpath newdirfd newpath flags)
            (Call.renameat2 olddirfd' oldpath' newdirfd' newpath' flags)
            q
    rmdir :
        {q : Process W} {pathname pathname' : PathArg}
        → AbsoluteArg L p pathname pathname' q
        → Passes p (Call.rmdir pathname) (Call.rmdir pathname') q
    lstat :
        {q : Process W} {pathname pathname' : PathArg} {cstat : Word}
        → AbsoluteArg L p pathname pathname' q
        → Passes p (Call.lstat pathname cstat) (Call.lstat pathname' cstat) q
    statx :
        {q : Process W} {dirfd dirfd' : ℤ} {pathname pathname' : PathArg}
        {flags mask statxbuf : Word}
        → AtArg L p dirfd pathname dirfd' pathname' q
        → Passes p
            (Call.statx dirfd pathname flags mask statxbuf)
            (Call.statx dirfd' pathname' flags mask statxbuf)
            q
    stat :
        {q : Process W} {pathname pathname' : PathArg} {cstat : Word}
        → AbsoluteArg L p pathname pathname' q
        → Passes p (Call.stat pathname cstat) (Call.stat pathname' cstat) q
    statfs :
        {q : Process W} {path path' : PathArg} {buf : Word}
        → CwdArg L p path path' q
        → Passes p (Call.statfs path buf) (Call.statfs path' buf) q
    symlink :
        {q : Process W} (u : Process W) {target linkpath target' linkpath' : PathArg}
        → AbsoluteArg L p target target' u
        → CwdArg L u linkpath linkpath' q
        → Passes p (Call.symlink target linkpath) (Call.symlink target' linkpath') q
    symlinkat :
        {q : Process W} (u : Process W) {newdirfd newdirfd' : ℤ}
        {target linkpath target' linkpath' : PathArg}
        → AtArg L p newdirfd linkpath newdirfd' linkpath' u
        → AbsoluteArg L u target target' q
        → Passes p
            (Call.symlinkat target newdirfd linkpath)
            (Call.symlinkat target' newdirfd' linkpath')
            q
    truncate :
        {q : Process W} {pathname pathname' : PathArg} {length : Word}
        → AbsoluteArg L p pathname pathname' q
        → Passes p (Call.truncate pathname length) (Call.truncate pathname' length) q
    unlink :
        {q : Process W} {pathname pathname' : PathArg}
        → AbsoluteArg L p pathname pathname' q
        → Passes p (Call.unlink pathname) (Call.unlink pathname') q
    unlinkat :
        {q : Process W} {dirfd dirfd' : ℤ} {pathname pathname' : PathArg} {flags : Word}
        → AtArg L p dirfd pathname dirfd' pathname' q
        → Passes p (Call.unlinkat dirfd pathname flags) (Call.unlinkat dirfd' pathname' flags) q
    utimensat :
        {q : Process W} {dirfd dirfd' : ℤ} {pathname pathname' : PathArg} {times flags : Word}
        → AtArg L p dirfd pathname dirfd' pathname' q
        → Passes p
            (Call.utimensat dirfd pathname times flags)
            (Call.utimensat dirfd' pathname' times flags)
            q
    write :
        {fd : ℤ} {buf count : Word} → Passes p (Call.write fd buf count) (Call.write fd buf count) p
