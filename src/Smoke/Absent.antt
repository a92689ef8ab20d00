-- ===== src/Smoke/Absent.antt =====
-- smoke/fixture.c, `run_missing` and `run_xattr`.
use Prim.Native.Nat.{bit_or}
use ld_preload.Prelude.{◌++◌, not, some, none, Bytes, codes, length, ℤ, int_eq, if◌then◌else◌}
use ld_preload.Libc.{Call}
use ld_preload.Path.Clean.{path_max}
use ld_preload.Program.{Program, ◌>>=◌, ◌>>◌}
use ld_preload.Smoke.{
  newline, payload, call, asks, does, die, die_if, succeeds, counts, descriptor, make_path,
  expect_bytes, is_optional_xattr_errno, create_scratch_dir, cleanup_path, cleanup_dir, fails_with,
}
use ld_preload.Smoke.Environment.{Outside, Frame, o_rdonly, o_directory, f_ok, r_ok, enoent}

abbrev pub attr_name : Bytes
attr_name = codes "user.ld_preload"

abbrev pub attr_value : Bytes
attr_value = codes "xattr-value"

module _ {W : Type 0} (o : Outside W) where
  unfoldable pub run_missing : Frame → Program W (Unit {0})
  run_missing f = do
    dir ← create_scratch_dir o path_max
    missing_path ← make_path o path_max dir (codes "missing.txt")
    fails_with o (call (Call.access (some missing_path) f_ok))
        (codes "access missing unexpectedly succeeded") (codes "access missing") enoent
    fails_with o (call (Call.open_path (some missing_path) o_rdonly none))
        (codes "open missing unexpectedly succeeded") (codes "open missing") enoent
    fails_with o (call (Call.stat (some missing_path) f.st))
        (codes "stat missing unexpectedly succeeded") (codes "stat missing") enoent
    fails_with o (call (Call.lstat (some missing_path) f.st))
        (codes "lstat missing unexpectedly succeeded") (codes "lstat missing") enoent
    fails_with o (call (Call.readlink (some missing_path) f.buf 16))
        (codes "readlink missing unexpectedly succeeded") (codes "readlink missing") enoent
    fails_with o (asks (o.getxattr (some missing_path) (codes "user.ld_preload") f.buf 16))
        (codes "getxattr missing unexpectedly succeeded") (codes "getxattr missing") enoent
    dirfd ←
        descriptor o (Call.open_path (some dir) (bit_or o_rdonly o_directory) none)
          (codes "open dir missing")
    fails_with o (call (Call.openat dirfd (some (codes "missing.txt")) o_rdonly none))
        (codes "openat missing unexpectedly succeeded") (codes "openat missing") enoent
    fails_with o (call (Call.faccessat dirfd (some (codes "missing.txt")) r_ok 0))
        (codes "faccessat missing unexpectedly succeeded") (codes "faccessat missing") enoent
    succeeds o (Call.close dirfd) (codes "close dir missing")
    cleanup_dir o dir

  unfoldable pub xattr_checks : Frame → Bytes → Bytes → ℤ → Program W (Unit {0})
  xattr_checks f dir file_path fd = do
    does (o.clear f.buf 64)
    n ← asks (o.getxattr (some file_path) attr_name f.buf 64)
    die_if o (not (int_eq n (ℤ.pos (length attr_value)))) (codes "getxattr")
    expect_bytes o (codes "getxattr") f.buf attr_value (length attr_value)
    does (o.clear f.buf 64)
    n ← asks (o.fgetxattr fd attr_name f.buf 64)
    die_if o (not (int_eq n (ℤ.pos (length attr_value)))) (codes "fgetxattr")
    expect_bytes o (codes "fgetxattr") f.buf attr_value (length attr_value)
    does (o.put_errno (ℤ.pos 0))
    n ← asks (o.lgetxattr (some file_path) attr_name f.buf 64)
    die_if o (not (int_eq n (ℤ.pos (length attr_value)))) (codes "lgetxattr regular file")
    succeeds o (Call.close fd) (codes "close xattr")
    cleanup_path o file_path
    cleanup_dir o dir

  unfoldable pub xattr_skip : Bytes → Bytes → ℤ → ℤ → Program W (Unit {0})
  xattr_skip dir file_path fd errno = do
    does (o.announce (codes "SKIP xattr setup unsupported: " ++ o.strerror errno ++ newline))
    closed ← call (Call.close fd)
    cleanup_path o file_path
    cleanup_dir o dir

  unfoldable pub run_xattr : Frame → Program W (Unit {0})
  run_xattr f = do
    dir ← create_scratch_dir o path_max
    file_path ← make_path o path_max dir (codes "xattr.txt")
    fd ← descriptor o (Call.creat (some file_path) 0o644) (codes "creat xattr")
    counts o (Call.write fd (o.literal payload) (length payload)) (length payload)
        (codes "write xattr")
    was_set ← asks (o.setxattr (some file_path) attr_name attr_value (length attr_value) 0)
    errno ← asks (λ w. (o.errno w, w))
    (if int_eq was_set (ℤ.pos 0)
        then xattr_checks f dir file_path fd
        else if is_optional_xattr_errno errno
        then xattr_skip dir file_path fd errno
        else die o (codes "setxattr"))
