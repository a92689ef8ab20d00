-- ===== src/Smoke/RewriteParts.antt =====
-- smoke/fixture.c, the stretches of `run_rewrite` that make files and links and give them new names.
use Prim.Native.Nat.{bit_and}
use ld_preload.Prelude.{◌-◌, not, ◌||◌, some, none, Bytes, codes, length, ℤ, int_eq, ◌==◌, ltb}
use ld_preload.Libc.{Call}
use ld_preload.Path.Clean.{path_max}
use ld_preload.Program.{Program, ◌>>=◌, ◌>>◌}
use ld_preload.Smoke.{
  payload, is_negative, bytes_eq, call, asks, does, reads, loads, die_if, fail_if, succeeds, counts,
  descriptor, expect_size, expect_bytes, tolerates, write_file_exact,
}
use ld_preload.Smoke.Environment.{
  Outside, Frame, st_size, st_mode, st_nlink, o_rdonly, enoent, eexist,
}

abbrev exec_payload : Bytes
exec_payload = codes "#!/bin/sh\nexit 0\n"

module _ {W : Type 0} (o : Outside W) where
  unfoldable pub rewrite_setup :
      Bytes → Bytes → Bytes → Bytes → Bytes → Bytes → Bytes → Program W (Unit {0})
  rewrite_setup source_exec target_dir target_file target_remove_at sibling_dir sibling_file
        sibling_guard =
      do
        tolerates o (Call.mkdir (some target_dir) 0o755) eexist (codes "mkdir target tree")
        tolerates o (Call.mkdir (some sibling_dir) 0o755) eexist (codes "mkdir sibling tree")
        write_file_exact o target_file payload
        write_file_exact o sibling_file (codes "sibling payload")
        write_file_exact o sibling_guard (codes "sibling guard")
        write_file_exact o target_remove_at (codes "remove me")
        exec_fd ← descriptor o (Call.creat (some source_exec) 0o755) (codes "create exec payload")
        counts o (Call.write exec_fd (o.literal exec_payload) (length exec_payload))
            (length exec_payload) (codes "write exec payload")
        succeeds o (Call.close exec_fd) (codes "close exec payload")

  unfoldable pub rewrite_open : Frame → Bytes → Program W (Unit {0})
  rewrite_open f source_file = do
    fd ←
        descriptor o (Call.open_path (some source_file) o_rdonly none) (codes "open rewritten file")
    does (o.clear f.read_buf 128)
    counts o (Call.read fd f.read_buf 128) (length payload) (codes "read rewritten file")
    expect_bytes o (codes "open rewritten file") f.read_buf payload (length payload)
    succeeds o (Call.close fd) (codes "close rewritten file")
    fd ← descriptor o (Call.creat (some source_file) 0o644) (codes "creat rewritten file")
    counts o (Call.write fd (o.literal payload) (length payload)) (length payload)
        (codes "write rewritten file")
    succeeds o (Call.close fd) (codes "close creat rewritten file")

  unfoldable pub rewrite_names :
      Frame → ℤ → Bytes → Bytes → Bytes → Bytes → Bytes → Bytes → Bytes → Program W (Unit {0})
  rewrite_names f dirfd source_file source_renamed source_link target_renamed target_renamed2
        target_link target_link_at =
      do
        fd ←
            descriptor o (Call.openat dirfd (some (codes "data.txt")) o_rdonly none)
              (codes "openat rewritten file")
        succeeds o (Call.close fd) (codes "close openat rewritten file")
        succeeds o (Call.stat (some source_file) f.st) (codes "stat rewritten file")
        size ← reads (o.field st_size f.st)
        expect_size o (codes "stat rewritten size") size (length payload)
        succeeds o (Call.lstat (some source_file) f.st) (codes "lstat rewritten file")
        size ← reads (o.field st_size f.st)
        expect_size o (codes "lstat rewritten size") size (length payload)
        succeeds o (Call.rename (some source_file) (some source_renamed))
            (codes "rename rewritten file")
        succeeds o (Call.stat (some target_renamed) f.st) (codes "stat target renamed")
        succeeds o
            (Call.renameat dirfd (some (codes "renamed.txt")) dirfd (some (codes "renamed2.txt")))
            (codes "renameat rewritten file")
        succeeds o (Call.stat (some target_renamed2) f.st) (codes "stat target renamed2")
        succeeds o
            (Call.renameat2 dirfd (some (codes "renamed2.txt")) dirfd (some (codes "renamed.txt"))
              0)
            (codes "renameat2 rewritten file")
        succeeds o (Call.stat (some target_renamed) f.st) (codes "stat target renameat2")
        succeeds o (Call.link (some source_renamed) (some source_link))
            (codes "link rewritten file")
        succeeds o (Call.stat (some target_link) f.st) (codes "stat target hardlink")
        links ← reads (o.field st_nlink f.st)
        fail_if o (ltb links 2) (codes "rewrite hardlink count mismatch")
        succeeds o
            (Call.linkat dirfd (some (codes "renamed.txt")) dirfd (some (codes "hard-at.txt")) 0)
            (codes "linkat rewritten file")
        succeeds o (Call.stat (some target_link_at) f.st) (codes "stat target hardlink at")
        links ← reads (o.field st_nlink f.st)
        fail_if o (ltb links 3) (codes "rewrite linkat count mismatch")

  unfoldable pub rewrite_made : Frame → ℤ → Bytes → Bytes → Program W (Unit {0})
  rewrite_made f dirfd target_created_dir_at target_remove_at = do
    succeeds o (Call.mkdirat dirfd (some (codes "made-at")) 0o750) (codes "mkdirat rewritten dir")
    succeeds o (Call.stat (some target_created_dir_at) f.st) (codes "stat target mkdirat")
    mode ← reads (o.field st_mode f.st)
    fail_if o (not (bit_and mode 0o170000 == 0o040000)) (codes "mkdirat target was not a directory")
    succeeds o (Call.unlinkat dirfd (some (codes "remove-at.txt")) 0)
        (codes "unlinkat rewritten file")
    does (o.put_errno (ℤ.pos 0))
    r ← call (Call.stat (some target_remove_at) f.st)
    errno ← asks (λ w. (o.errno w, w))
    fail_if o (not (int_eq r (ℤ.negsuc 0)) || not (int_eq errno enoent))
        (codes "unlinkat did not remove rewritten target")

  unfoldable pub link_text : Frame → Call → Bytes → Bytes → Bytes → Program W (Unit {0})
  link_text f c expected message mismatch = do
    does (o.clear f.buf path_max)
    n ← call c
    die_if o (is_negative n) message
    does (o.terminate f.buf n)
    found ← loads (o.string f.buf)
    fail_if o (not (bytes_eq found expected)) mismatch

  unfoldable pub rewrite_symlinks :
      Frame → ℤ → Bytes → Bytes → Bytes → Bytes → Bytes → Bytes → Program W (Unit {0})
  rewrite_symlinks f dirfd source_renamed source_abs_symlink source_rel_symlink
        source_abs_symlink_at source_rel_symlink_at target_renamed =
      do
        succeeds o (Call.symlink (some source_renamed) (some source_abs_symlink))
            (codes "symlink absolute rewritten")
        link_text f (Call.readlink (some source_abs_symlink) f.buf (path_max - 1)) target_renamed
            (codes "readlink absolute rewritten")
            (codes "absolute symlink payload was not rewritten")
        succeeds o (Call.symlink (some (codes "../data.txt")) (some source_rel_symlink))
            (codes "symlink relative payload")
        link_text f (Call.readlink (some source_rel_symlink) f.buf (path_max - 1))
            (codes "../data.txt") (codes "readlink relative payload")
            (codes "relative symlink payload should be preserved")
        succeeds o (Call.symlinkat (some source_renamed) dirfd (some (codes "abs-at.lnk")))
            (codes "symlinkat absolute rewritten")
        link_text f (Call.readlink (some source_abs_symlink_at) f.buf (path_max - 1)) target_renamed
            (codes "readlink absolute symlinkat")
            (codes "absolute symlinkat payload was not rewritten")
        link_text f (Call.readlinkat dirfd (some (codes "abs-at.lnk")) f.buf (path_max - 1))
            target_renamed (codes "readlinkat absolute symlink")
            (codes "readlinkat payload was not rewritten")
        succeeds o (Call.symlinkat (some (codes "../data.txt")) dirfd (some (codes "rel-at.lnk")))
            (codes "symlinkat relative payload")
        link_text f (Call.readlink (some source_rel_symlink_at) f.buf (path_max - 1))
            (codes "../data.txt") (codes "readlink relative symlinkat")
            (codes "relative symlinkat payload should be preserved")
