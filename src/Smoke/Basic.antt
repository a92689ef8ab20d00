-- ===== src/Smoke/Basic.antt =====
-- smoke/fixture.c, `run_basic` and `run_metadata`.
use Prim.Native.Nat.{bit_and, bit_or}
use ld_preload.Prelude.{◌-◌, not, some, none, codes, length, ℤ, int_eq, ◌==◌, ltb}
use ld_preload.Libc.{Call}
use ld_preload.Path.Clean.{path_max}
use ld_preload.Program.{Program, ◌>>=◌, ◌>>◌}
use ld_preload.Smoke.{
  payload, is_negative, bytes_eq, call, asks, does, reads, loads, die_if, fail_if, succeeds, counts,
  descriptor, make_path, expect_size, expect_bytes, create_scratch_dir, cleanup_path, cleanup_dir,
}
use ld_preload.Smoke.Environment.{
  Outside, Frame, st_size, st_mode, st_nlink, o_rdonly, o_rdwr, o_directory, w_ok, r_ok,
}

module _ {W : Type 0} (o : Outside W) where
  unfoldable pub run_basic : Frame → Program W (Unit {0})
  run_basic f = do
    dir ← create_scratch_dir o path_max
    file_path ← make_path o path_max dir (codes "basic.txt")
    fd ← descriptor o (Call.creat (some file_path) 0o644) (codes "creat")
    counts o (Call.write fd (o.literal payload) (length payload)) (length payload) (codes "write")
    succeeds o (Call.close fd) (codes "close after creat")
    succeeds o (Call.access (some file_path) (bit_or r_ok w_ok)) (codes "access")
    succeeds o (Call.euidaccess (some file_path) r_ok) (codes "euidaccess")
    fd ← descriptor o (Call.open_path (some file_path) o_rdwr none) (codes "open")
    succeeds o (Call.lseek fd 0 0) (codes "lseek rewind")
    does (o.clear f.buf 128)
    counts o (Call.read fd f.buf 128) (length payload) (codes "read after lseek")
    expect_bytes o (codes "read after lseek") f.buf payload (length payload)
    counts o (Call.pwrite fd (o.literal (codes "PRE")) 3 0) 3 (codes "pwrite")
    does (o.clear f.buf 128)
    counts o (Call.pread fd f.buf (length payload) 0) (length payload) (codes "pread")
    expect_bytes o (codes "pread prefix") f.buf (codes "PRE") 3
    succeeds o (Call.fstat fd f.st) (codes "fstat")
    size ← reads (o.field st_size f.st)
    expect_size o (codes "fstat size") size (length payload)
    dirfd ←
        descriptor o (Call.open_path (some dir) (bit_or o_rdonly o_directory) none)
          (codes "open dir")
    succeeds o (Call.faccessat dirfd (some (codes "basic.txt")) r_ok 0) (codes "faccessat")
    fd_at ←
        descriptor o (Call.openat dirfd (some (codes "basic.txt")) o_rdonly none) (codes "openat")
    succeeds o (Call.close fd_at) (codes "close openat")
    succeeds o (Call.stat (some file_path) f.st) (codes "stat")
    size ← reads (o.field st_size f.st)
    expect_size o (codes "stat size") size (length payload)
    succeeds o (Call.close fd) (codes "close")
    succeeds o (Call.truncate (some file_path) 7) (codes "truncate")
    succeeds o (Call.stat (some file_path) f.st) (codes "stat after truncate")
    size ← reads (o.field st_size f.st)
    expect_size o (codes "truncate size") size 7
    succeeds o (Call.close dirfd) (codes "close dir")
    cleanup_path o file_path
    cleanup_dir o dir

  unfoldable pub run_metadata : Frame → Program W (Unit {0})
  run_metadata f = do
    dir ← create_scratch_dir o path_max
    nested_dir ← make_path o path_max dir (codes "nested")
    file_path ← make_path o path_max nested_dir (codes "source.txt")
    renamed_path ← make_path o path_max nested_dir (codes "renamed.txt")
    symlink_path ← make_path o path_max dir (codes "source.lnk")
    hardlink_path ← make_path o path_max dir (codes "source.hard")
    succeeds o (Call.mkdir (some nested_dir) 0o755) (codes "mkdir")
    fd ← descriptor o (Call.creat (some file_path) 0o644) (codes "creat metadata")
    counts o (Call.write fd (o.literal payload) (length payload)) (length payload)
        (codes "write metadata")
    succeeds o (Call.close fd) (codes "close metadata")
    succeeds o (Call.rename (some file_path) (some renamed_path)) (codes "rename")
    changed ← asks (o.chmod (some renamed_path) 0o600)
    die_if o (not (int_eq changed (ℤ.pos 0))) (codes "chmod")
    succeeds o (Call.stat (some renamed_path) f.st) (codes "stat renamed")
    mode ← reads (o.field st_mode f.st)
    fail_if o (not (bit_and mode 0o777 == 0o600)) (codes "chmod mode mismatch")
    succeeds o (Call.symlink (some renamed_path) (some symlink_path)) (codes "symlink")
    succeeds o (Call.lstat (some symlink_path) f.st) (codes "lstat symlink")
    mode ← reads (o.field st_mode f.st)
    fail_if o (not (bit_and mode 0o170000 == 0o120000)) (codes "lstat did not report symlink")
    does (o.clear f.buf path_max)
    n ← call (Call.readlink (some symlink_path) f.buf (path_max - 1))
    die_if o (is_negative n) (codes "readlink")
    does (o.terminate f.buf n)
    link_target ← loads (o.string f.buf)
    fail_if o (not (bytes_eq link_target renamed_path)) (codes "readlink target mismatch")
    succeeds o (Call.link (some renamed_path) (some hardlink_path)) (codes "link")
    succeeds o (Call.stat (some hardlink_path) f.st) (codes "stat hardlink")
    links ← reads (o.field st_nlink f.st)
    fail_if o (ltb links 2) (codes "hardlink count mismatch")
    cleanup_path o hardlink_path
    cleanup_path o symlink_path
    cleanup_path o renamed_path
    cleanup_dir o nested_dir
    cleanup_dir o dir
