-- ===== src/Smoke/RewriteChecks.antt =====
-- smoke/fixture.c, the stretches of `run_rewrite` behind the links: times, modes, what is missing,
-- the working directory and the child.
use Prim.Native.Nat.{bit_and, bit_or}
use ld_preload.Prelude.{
  ℕ, Bool, true, false, not, ◌||◌, Option, some, none, Bytes, codes, length, ℤ, int_eq, ◌==◌,
}
use ld_preload.Libc.{Call}
use ld_preload.Path.Clean.{path_max}
use ld_preload.Path.Prefix.{or_nil}
use ld_preload.Program.{Program, done, exits, tells_cwd, ◌>>=◌, ◌>>◌}
use ld_preload.Smoke.{
  exec_status, payload, is_negative, bytes_eq, call, asks, does, reads, when, die_if, fail_if,
  succeeds, counts, descriptor, expect_bytes, fails_with,
}
use ld_preload.Smoke.Environment.{
  Outside, Frame, st_mode, st_mtime, stx_mask, stx_size, f_bsize, int_value, atime_sec, atime_nsec,
  mtime_sec, mtime_nsec, o_rdonly, r_ok, enoent, statx_mtime, statx_size,
}

-- sizeof(struct statx) and sizeof(struct open_how)
abbrev stx_bytes : ℕ
stx_bytes = 256

abbrev how_bytes : ℕ
how_bytes = 24

abbrev is_none : Option Bytes → Bool
is_none none = true
is_none (some s) = false

module _ {W : Type 0} (o : Outside W) where
  unfoldable pub rewrite_times : Frame → ℤ → Bytes → Program W (Unit {0})
  rewrite_times f dirfd target_renamed = do
    does (o.put_field atime_sec f.times 1_700_000_000)
    does (o.put_field atime_nsec f.times 123_456_789)
    does (o.put_field mtime_sec f.times 1_700_000_001)
    does (o.put_field mtime_nsec f.times 222_333_444)
    succeeds o (Call.utimensat dirfd (some (codes "renamed.txt")) f.times 0)
        (codes "utimensat rewritten file")
    succeeds o (Call.stat (some target_renamed) f.st) (codes "stat target utimensat")
    mtime ← reads (o.field st_mtime f.st)
    wanted ← reads (o.field mtime_sec f.times)
    fail_if o (not (mtime == wanted)) (codes "utimensat mtime mismatch")
    does (o.clear f.stx stx_bytes)
    succeeds o
        (Call.statx dirfd (some (codes "renamed.txt")) 0 (bit_or statx_size statx_mtime) f.stx)
        (codes "statx rewritten file")
    mask ← reads (o.field stx_mask f.stx)
    size ← reads (o.field stx_size f.stx)
    fail_if o (bit_and mask statx_size == 0 || not (size == length payload))
        (codes "statx size mismatch")

  unfoldable pub rewrite_sibling : Frame → Bytes → Program W (Unit {0})
  rewrite_sibling f sibling_file = do
    fd ← descriptor o (Call.open_path (some sibling_file) o_rdonly none) (codes "open sibling file")
    does (o.clear f.read_buf 128)
    counts o (Call.read fd f.read_buf 128) (length (codes "sibling payload"))
        (codes "read sibling file")
    expect_bytes o (codes "sibling file payload") f.read_buf (codes "sibling payload")
        (length (codes "sibling payload"))
    succeeds o (Call.close fd) (codes "close sibling file")

  unfoldable pub rewrite_missing : Frame → ℤ → Bytes → Bytes → Program W (Unit {0})
  rewrite_missing f dirfd source_guard source_missing = do
    fails_with o (call (Call.open_path (some source_guard) o_rdonly none))
        (codes "rewritten missing open unexpectedly succeeded") (codes "rewritten missing open")
        enoent
    fails_with o (call (Call.stat (some source_guard) f.st))
        (codes "rewritten missing stat unexpectedly succeeded") (codes "rewritten missing stat")
        enoent
    fails_with o (call (Call.lstat (some source_guard) f.st))
        (codes "rewritten missing lstat unexpectedly succeeded") (codes "rewritten missing lstat")
        enoent
    fails_with o (call (Call.readlink (some source_missing) f.buf path_max))
        (codes "rewritten missing readlink unexpectedly succeeded")
        (codes "rewritten missing readlink") enoent
    fails_with o (call (Call.readlinkat dirfd (some (codes "missing.txt")) f.buf path_max))
        (codes "rewritten missing readlinkat unexpectedly succeeded")
        (codes "rewritten missing readlinkat") enoent
    fails_with o (call (Call.statx dirfd (some (codes "missing.txt")) 0 statx_size f.stx))
        (codes "rewritten missing statx unexpectedly succeeded") (codes "rewritten missing statx")
        enoent

  unfoldable pub rewrite_modes : Frame → ℤ → Bytes → Bytes → Bytes → Program W (Unit {0})
  rewrite_modes f dirfd source_dir source_renamed target_renamed = do
    succeeds o (Call.access (some source_renamed) r_ok) (codes "rewritten access")
    succeeds o (Call.faccessat dirfd (some (codes "renamed.txt")) r_ok 0)
        (codes "rewritten faccessat")
    succeeds o (Call.fchmodat dirfd (some (codes "renamed.txt")) 0o600 0)
        (codes "rewritten fchmodat")
    succeeds o (Call.stat (some target_renamed) f.st) (codes "stat target rewritten fchmodat")
    mode ← reads (o.field st_mode f.st)
    fail_if o (not (bit_and mode 0o777 == 0o600)) (codes "fchmodat rewrite mode mismatch")
    does (o.clear f.how how_bytes)
    fd ← asks (o.syscall_openat2 dirfd (some (codes "renamed.txt")) f.how how_bytes)
    die_if o (is_negative fd) (codes "rewritten openat2")
    does (o.clear f.read_buf 128)
    n ← call (Call.pread fd f.read_buf 128 0)
    die_if o (is_negative n) (codes "read rewritten openat2")
    succeeds o (Call.close fd) (codes "close rewritten openat2")
    succeeds o (Call.statfs (some source_dir) f.stfs) (codes "rewritten statfs")
    size ← reads (o.field f_bsize f.stfs)
    fail_if o (size == 0) (codes "statfs rewrite returned zero block size")

  unfoldable pub exec_test_child : Frame → Bytes → Program W (Unit {0})
  exec_test_child f source_exec = do
    ended ← call (Call.execve (some source_exec) f.exec_argv f.exec_envp)
    exits (exec_status ended)

  unfoldable pub rewrite_cwd : Frame → Bytes → Bytes → Program W (Unit {0})
  rewrite_cwd f source_dir source_exec = do
    cwd ← tells_cwd (some path_max) path_max done
    die_if o (is_none cwd) (codes "getcwd before rewrite chdir")
    succeeds o (Call.chdir (some source_dir)) (codes "rewritten chdir")
    cwd ← tells_cwd (some path_max) path_max done
    die_if o (is_none cwd) (codes "getcwd after rewrite chdir")
    fail_if o (not (bytes_eq (or_nil cwd) source_dir)) (codes "getcwd rewrite mismatch after chdir")
    succeeds o (Call.chdir (some (codes "/"))) (codes "restore cwd after chdir")
    child_pid_exec ← asks o.fork
    die_if o (is_negative child_pid_exec) (codes "fork exec test")
    when (int_eq child_pid_exec (ℤ.pos 0)) (exec_test_child f source_exec)
    waited ← asks (o.waitpid child_pid_exec f.wait_status 0)
    die_if o (not (int_eq waited child_pid_exec)) (codes "wait exec test")
    wait_status ← reads (o.field int_value f.wait_status)
    die_if o (not (o.wifexited wait_status) || not (o.wexitstatus wait_status == 0))
        (codes "execve rewritten path did not execute")
