-- ===== src/Smoke/Passthrough.antt =====
-- smoke/fixture.c, `run_passthrough` and `run_failopen`.
use Prim.Native.Nat.{bit_or}
use ld_preload.Prelude.{not, some, none, Bytes, codes, length, ℤ, int_eq}
use ld_preload.Libc.{Call}
use ld_preload.Path.Clean.{path_max}
use ld_preload.Program.{Program, ◌>>=◌, ◌>>◌}
use ld_preload.Smoke.{
  call, asks, does, reads, die_if, succeeds, counts, descriptor, make_path, expect_size,
  expect_bytes, make_scratch, tolerates, fails_with, write_file_exact,
}
use ld_preload.Smoke.Environment.{
  Outside, Frame, st_size, o_rdonly, o_directory, r_ok, enoent, ebadf, eexist, statx_size,
}

abbrev pub source_payload : Bytes
source_payload = codes "source payload"

abbrev pub target_payload : Bytes
target_payload = codes "target payload"

module _ {W : Type 0} (o : Outside W) where
  unfoldable pub run_passthrough : Frame → Bytes → Bytes → Program W (Unit {0})
  run_passthrough f source_root target_root = do
    source_dir ← make_path o path_max source_root (codes "tree")
    source_file ← make_path o path_max source_dir (codes "data.txt")
    target_dir ← make_path o path_max target_root (codes "tree")
    target_file ← make_path o path_max target_dir (codes "data.txt")
    tolerates o (Call.mkdir (some source_dir) 0o755) eexist (codes "mkdir passthrough source")
    tolerates o (Call.mkdir (some target_dir) 0o755) eexist (codes "mkdir passthrough target")
    write_file_exact o source_file source_payload
    write_file_exact o target_file target_payload
    fd ←
        descriptor o (Call.open_path (some source_file) o_rdonly none)
          (codes "open passthrough source")
    does (o.clear f.buf 128)
    counts o (Call.read fd f.buf 128) (length source_payload) (codes "read passthrough source")
    expect_bytes o (codes "passthrough open payload") f.buf source_payload (length source_payload)
    succeeds o (Call.close fd) (codes "close passthrough source")
    dirfd ←
        descriptor o (Call.open_path (some source_dir) (bit_or o_rdonly o_directory) none)
          (codes "open passthrough dir")
    fd ←
        descriptor o (Call.openat dirfd (some (codes "data.txt")) o_rdonly none)
          (codes "openat passthrough source")
    does (o.clear f.buf 128)
    counts o (Call.read fd f.buf 128) (length source_payload) (codes "read passthrough openat")
    expect_bytes o (codes "passthrough openat payload") f.buf source_payload (length source_payload)
    succeeds o (Call.close fd) (codes "close passthrough openat")
    succeeds o (Call.stat (some source_file) f.st) (codes "stat passthrough source")
    size ← reads (o.field st_size f.st)
    expect_size o (codes "passthrough stat size") size (length source_payload)
    succeeds o (Call.stat (some target_file) f.st) (codes "stat passthrough target")
    size ← reads (o.field st_size f.st)
    expect_size o (codes "passthrough target size") size (length target_payload)
    succeeds o (Call.close dirfd) (codes "close passthrough dir")

  unfoldable pub run_failopen : Frame → Program W (Unit {0})
  run_failopen f = do
    fails_with o (call (Call.openat (ℤ.negsuc 0) (some (codes "missing.txt")) o_rdonly none))
        (codes "openat invalid dirfd unexpectedly succeeded") (codes "openat invalid dirfd") ebadf
    fails_with o (call (Call.faccessat (ℤ.negsuc 0) (some (codes "missing.txt")) r_ok 0))
        (codes "faccessat invalid dirfd unexpectedly succeeded") (codes "faccessat invalid dirfd")
        ebadf
    fails_with o (call (Call.readlinkat (ℤ.negsuc 0) (some (codes "missing.txt")) f.buf 32))
        (codes "readlinkat invalid dirfd unexpectedly succeeded") (codes "readlinkat invalid dirfd")
        ebadf
    fails_with o (call (Call.statx (ℤ.negsuc 0) (some (codes "missing.txt")) 0 statx_size f.stx))
        (codes "statx invalid dirfd unexpectedly succeeded") (codes "statx invalid dirfd") ebadf
    tmp_dir ← make_scratch o (codes "/tmp/ld_preload_failopen.XXXXXX") (codes "mkdtemp failopen")
    saved_cwd_fd ←
        descriptor o (Call.open_path (some (codes ".")) (bit_or o_rdonly o_directory) none)
          (codes "open saved cwd")
    dirfd ←
        descriptor o (Call.open_path (some tmp_dir) (bit_or o_rdonly o_directory) none)
          (codes "open failopen dir")
    succeeds o (Call.close dirfd) (codes "close failopen dir")
    fails_with o (call (Call.openat dirfd (some (codes "missing.txt")) o_rdonly none))
        (codes "openat closed dirfd unexpectedly succeeded") (codes "openat closed dirfd") ebadf
    succeeds o (Call.chdir (some tmp_dir)) (codes "chdir failopen dir")
    succeeds o (Call.rmdir (some tmp_dir)) (codes "rmdir failopen dir")
    fails_with o (call (Call.open_path (some (codes "missing.txt")) o_rdonly none))
        (codes "open missing in deleted cwd unexpectedly succeeded")
        (codes "open missing in deleted cwd") enoent
    fails_with o (call (Call.stat (some (codes "missing.txt")) f.st))
        (codes "stat missing in deleted cwd unexpectedly succeeded")
        (codes "stat missing in deleted cwd") enoent
    restored ← asks (o.fchdir saved_cwd_fd)
    die_if o (not (int_eq restored (ℤ.pos 0))) (codes "restore cwd")
    succeeds o (Call.close saved_cwd_fd) (codes "close saved cwd")
