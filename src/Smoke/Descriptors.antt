-- ===== src/Smoke/Descriptors.antt =====
-- smoke/fixture.c, `run_fd_semantics` with the children that it forks, and `run_fd_exec_check`.
use Prim.Native.Nat.{bit_or}
use ld_preload.Prelude.{
  not, [], ◌∷◌, some, none, Bytes, codes, length, ℤ, int_eq, decimal, if◌then◌else◌,
}
use ld_preload.Libc.{Call}
use ld_preload.Path.Clean.{path_max}
use ld_preload.Program.{Program, exits, ◌>>=◌, ◌>>◌}
use ld_preload.Smoke.{
  payload_fd, exec_status, is_negative, call, asks, does, reads, when, die_if, fail_if, succeeds,
  counts, descriptor, make_path, expect_bytes, expect_child_status_zero, tolerates,
  write_file_exact,
}
use ld_preload.Smoke.Environment.{Outside, Frame, int_value, o_rdonly, o_cloexec, ebadf, eexist}

module _ {W : Type 0} (o : Outside W) where
  unfoldable pub inherit_child : Frame → ℤ → Program W (Unit {0})
  inherit_child f shared_fd = do
    n ← call (Call.read shared_fd f.read_buf 64)
    when (not (int_eq n (ℤ.pos (length payload_fd)))) (exits 1)
    expect_bytes o (codes "fork-inherited read") f.read_buf payload_fd (length payload_fd)
    exits 0

  unfoldable pub close_child : ℤ → Program W (Unit {0})
  close_child shared_fd = do
    child_closed_fd ← call (Call.close shared_fd)
    exits (if int_eq child_closed_fd (ℤ.pos 0) then 0 else 1)

  unfoldable pub exec_child : Bytes → ℤ → ℤ → Program W (Unit {0})
  exec_child argv0 keep_fd cloexec_fd = do
    ended ← asks (
        o.execv (some argv0)
          (argv0 ∷ codes "fd-exec-check" ∷ decimal keep_fd ∷ decimal cloexec_fd ∷ []))
    exits (exec_status ended)

  unfoldable pub wait_for : Frame → ℤ → Bytes → Bytes → Program W (Unit {0})
  wait_for f child_pid message label = do
    waited ← asks (o.waitpid child_pid f.wait_status 0)
    die_if o (not (int_eq waited child_pid)) message
    status ← reads (o.field int_value f.wait_status)
    expect_child_status_zero o label status

  unfoldable pub run_fd_semantics : Frame → Bytes → Bytes → Bytes → Program W (Unit {0})
  run_fd_semantics f argv0 source_root target_root = do
    target_dir ← make_path o path_max target_root (codes "tree")
    target_file ← make_path o path_max target_dir (codes "shared.txt")
    source_file ← make_path o path_max source_root (codes "tree/shared.txt")
    tolerates o (Call.mkdir (some target_dir) 0o755) eexist (codes "mkdir fd target tree")
    write_file_exact o target_file payload_fd
    shared_fd ←
        descriptor o (Call.open_path (some source_file) o_rdonly none) (codes "open fd shared")
    child_pid ← asks o.fork
    die_if o (is_negative child_pid) (codes "fork inherit")
    when (int_eq child_pid (ℤ.pos 0)) (inherit_child f shared_fd)
    succeeds o (Call.close shared_fd) (codes "close shared fd")
    wait_for f child_pid (codes "wait fork inherit") (codes "fork-inherited child")
    shared_fd ←
        descriptor o (Call.open_path (some source_file) o_rdonly none) (codes "open fd fork-close")
    child_pid ← asks o.fork
    die_if o (is_negative child_pid) (codes "fork child close")
    when (int_eq child_pid (ℤ.pos 0)) (close_child shared_fd)
    wait_for f child_pid (codes "wait fork child close") (codes "fork child close")
    does (o.clear f.read_buf 64)
    counts o (Call.pread shared_fd f.read_buf 64 0) (length payload_fd)
        (codes "fork child close pread")
    expect_bytes o (codes "fork child close pread") f.read_buf payload_fd (length payload_fd)
    keep_fd ←
        descriptor o (Call.open_path (some source_file) o_rdonly none) (codes "open fd exec keep")
    cloexec_fd ←
        descriptor o (Call.open_path (some source_file) (bit_or o_rdonly o_cloexec) none)
          (codes "open fd exec cloexec")
    child_pid ← asks o.fork
    die_if o (is_negative child_pid) (codes "fork exec check")
    when (int_eq child_pid (ℤ.pos 0)) (exec_child argv0 keep_fd cloexec_fd)
    wait_for f child_pid (codes "wait exec check") (codes "exec check child failed")
    succeeds o (Call.close shared_fd) (codes "close shared fd")
    succeeds o (Call.close keep_fd) (codes "close parent keep fd")
    succeeds o (Call.close cloexec_fd) (codes "close parent cloexec fd")

  unfoldable pub run_fd_exec_check : Frame → ℤ → ℤ → Program W (Unit {0})
  run_fd_exec_check f keep_fd cloexec_fd = do
    succeeds o (Call.fstat keep_fd f.st) (codes "fdexec keep fstat")
    counts o (Call.read keep_fd f.read_buf 64) (length payload_fd) (codes "fdexec keep read")
    expect_bytes o (codes "fdexec keep payload") f.read_buf payload_fd (length payload_fd)
    succeeds o (Call.lseek keep_fd 0 0) (codes "fdexec keep rewind")
    does (o.put_errno (ℤ.pos 0))
    r ← call (Call.fstat cloexec_fd f.st)
    fail_if o (int_eq r (ℤ.pos 0)) (codes "fdexec cloexec is still open")
    errno ← asks (λ w. (o.errno w, w))
    die_if o (not (int_eq errno ebadf)) (codes "fdexec cloexec check")
