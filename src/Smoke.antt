-- ===== src/Smoke.antt =====
-- smoke/fixture.c, the program that the smoke tests run with and without the library: its constants
-- and its helpers. The bytes of a text that the code passes by pointer stand at the address
-- `literal` of them; the local variables that the calls fill stand at the addresses of a `Frame`.
pub mod Environment
pub mod Helpers
pub mod Basic
pub mod Absent
pub mod Passthrough
pub mod Descriptors
pub mod RewriteParts
pub mod RewriteChecks
pub mod Rewrite
pub mod Landing
pub mod Shared
pub mod Writes
pub mod Main
use ld_preload.Prelude.{
  ℕ, ◌+◌, Bool, true, false, not, ◌&&◌, ◌||◌, List, [], ◌∷◌, ◌++◌, Option, none, some, Bytes, codes,
  length, take, ℤ, int_eq, decimal, ◌==◌, leb, if◌then◌else◌,
}
use ld_preload.Smoke.Environment.{
  Field, Outside, Frame, o_rdonly, o_rdwr, o_directory, o_cloexec, f_ok, w_ok, r_ok, enoent, ebadf,
  eexist, statx_mtime, statx_size, st_size, st_mode, st_nlink, st_mtime, stx_mask, stx_size,
  f_bsize, int_value, atime_sec, atime_nsec, mtime_sec, mtime_nsec,
}
use ld_preload.Libc.{Call, Word, PathArg}
use ld_preload.Path.Clean.{path_max, slash}
use ld_preload.Path.Prefix.{or_nil}
use ld_preload.Program.{Program, done, exits, calls, number, text, ◌>>=◌, ◌>>◌}

abbrev pub newline : Bytes
newline = 10 ∷ []

abbrev pub payload : Bytes
payload = codes "ld_preload smoke payload"

abbrev pub payload_fd : Bytes
payload_fd = codes "fd semantics payload"

abbrev pub is_negative : ℤ → Bool
is_negative (ℤ.pos n) = false
is_negative (ℤ.negsuc n) = true

abbrev pub bytes_eq : Bytes → Bytes → Bool
bytes_eq [] [] = true
bytes_eq (a ∷ s) (b ∷ t) = a == b && bytes_eq s t
bytes_eq _ _ = false

abbrev nat_of : ℤ → ℕ
nat_of (ℤ.pos n) = n
nat_of (ℤ.negsuc n) = 0

-- The status of a child that calls `exec` and then `_exit(1)`: an `exec` that succeeds does not
-- return, and its answer stands for the status with which the new program ends.
unfoldable pub exec_status : ℤ → ℕ
exec_status (ℤ.pos n) = n
exec_status (ℤ.negsuc n) = 1

-- EOPNOTSUPP is the same number as ENOTSUP.
unfoldable pub is_optional_xattr_errno : ℤ → Bool
is_optional_xattr_errno err = int_eq err (ℤ.pos 95) || int_eq err (ℤ.pos 1)

module _ {W : Type 0} where
  -- A call of an exported function, a call of another function, and a change of the memory.
  unfoldable pub call : Call → Program W ℤ
  call c = calls c done

  unfoldable pub asks : (W → ℤ × W) → Program W ℤ
  asks g = number g done

  unfoldable pub does : (W → W) → Program W (Unit {0})
  does g = number (λ w. (ℤ.pos 0, g w)) (λ _. done tt)

  unfoldable pub reads : (W → Word) → Program W Word
  reads g = number (λ w. (ℤ.pos (g w), w)) (λ r. done (nat_of r))

  unfoldable pub loads : (W → Bytes) → Program W Bytes
  loads g = text (λ w. (some (g w), w)) (λ s. done (or_nil s))

  unfoldable pub when : Bool → Program W (Unit {0}) → Program W (Unit {0})
  when true m = m
  when false m = done tt

-- A label with what is printed behind it.
unfoldable pub line : Bytes → Bytes → Bytes
line label rest = label ++ rest ++ newline

module _ {W : Type 0} (o : Outside W) where
  unfoldable pub die : {A : Type 0} → Bytes → Program W A
  unfolding does
  die message = do
    does (λ w. o.report (line message (codes ": " ++ o.strerror (o.errno w))) w)
    exits 1

  unfoldable pub fail_message : {A : Type 0} → Bytes → Program W A
  unfolding does
  fail_message message = do does (o.report (line message [])); exits 1

  -- `if (…) die(message);`, and the same with the other way to fail.
  unfoldable pub die_if : Bool → Bytes → Program W (Unit {0})
  unfolding when die
  die_if b message = when b (die message)

  unfoldable pub fail_if : Bool → Bytes → Program W (Unit {0})
  unfolding when fail_message
  fail_if b message = when b (fail_message message)

  -- `if (f(…) != 0) die(message);`
  unfoldable pub succeeds : Call → Bytes → Program W (Unit {0})
  unfolding call die_if
  succeeds c message = do r ← call c; die_if (not (int_eq r (ℤ.pos 0))) message

  -- `if (f(…) != n) die(message);`
  unfoldable pub counts : Call → ℕ → Bytes → Program W (Unit {0})
  unfolding call die_if
  counts c n message = do r ← call c; die_if (not (int_eq r (ℤ.pos n))) message

  -- `fd = open(…); if (fd < 0) die(message);`
  unfoldable pub descriptor : Call → Bytes → Program W ℤ
  unfolding call die_if
  descriptor c message = do fd ← call c; die_if (is_negative fd) message; done fd

  -- `snprintf(dst, dst_len, "%s/%s", dir, name)`
  unfoldable pub make_path : ℕ → Bytes → Bytes → Program W Bytes
  unfolding fail_if
  make_path dst_len dir name = do
    fail_if (leb dst_len (length dir + 1 + length name)) (codes "path too long")
    done (dir ++ slash ∷ name)

  unfoldable pub expect_errno_int : Bytes → ℤ → ℤ → Program W (Unit {0})
  unfolding when does
  expect_errno_int label actual expected = when (not (int_eq actual expected)) (do
    does (
        o.report (
          line label
            (codes ": expected errno " ++ decimal expected ++ codes ", got " ++ decimal actual)))
    exits 1)

  unfoldable pub expect_size : Bytes → Word → Word → Program W (Unit {0})
  unfolding when does
  expect_size label actual expected = when (not (actual == expected)) (do
    does (
        o.report (
          line label (
            codes ": expected size "
            ++ decimal (ℤ.pos expected)
            ++ codes ", got "
            ++ decimal (ℤ.pos actual))))
    exits 1)

  -- `actual` is an address.
  unfoldable pub expect_bytes : Bytes → Word → Bytes → ℕ → Program W (Unit {0})
  unfolding when does loads
  expect_bytes label actual expected len = do
    found ← loads (o.load actual len)
    when (not (bytes_eq found (take len expected)))
        (do does (o.report (line label (codes ": payload mismatch"))); exits 1)

  unfoldable pub expect_child_status_zero : Bytes → Word → Program W (Unit {0})
  unfolding when does
  expect_child_status_zero label status = do
    let zero_exit = o.wifexited status && o.wexitstatus status == 0
    let told =
        if o.wifexited status
        then codes ": child exit status " ++ decimal (ℤ.pos (o.wexitstatus status))
        else if o.wifsignaled status
        then codes ": child terminated by signal " ++ decimal (ℤ.pos (o.wtermsig status))
        else if o.wifstopped status
        then codes ": child stopped by signal " ++ decimal (ℤ.pos (o.wstopsig status))
        else codes ": child status " ++ decimal (ℤ.pos status)
    when (not zero_exit) (do does (o.report (line label told)); exits 1)

  -- `dir = mkdtemp(template); if (dir == NULL) die(message);`
  unfoldable pub or_die : Bytes → Option Bytes → Program W Bytes
  unfolding die
  or_die message none = die message
  or_die message (some dir) = done dir

  unfoldable pub make_scratch : Bytes → Bytes → Program W Bytes
  unfolding or_die
  make_scratch template message = text (o.mkdtemp template) (or_die message)

  unfoldable pub create_scratch_dir : ℕ → Program W Bytes
  unfolding make_scratch fail_if
  create_scratch_dir dir_buf_len = do
    dir ← make_scratch (codes "/tmp/ld_preload_smoke.XXXXXX") (codes "mkdtemp")
    fail_if (leb dir_buf_len (length dir)) (codes "scratch dir too long")
    done dir

  -- `if (f(path) != 0 && errno != err) die(message);`
  unfoldable pub tolerates : Call → ℤ → Bytes → Program W (Unit {0})
  unfolding call die_if asks
  tolerates c err message = do
    r ← call c
    errno ← asks (λ w. (o.errno w, w))
    die_if (not (int_eq r (ℤ.pos 0)) && not (int_eq errno err)) message

  unfoldable pub cleanup_path : Bytes → Program W (Unit {0})
  unfolding tolerates
  cleanup_path path = tolerates (Call.unlink (some path)) enoent (codes "unlink cleanup")

  unfoldable pub cleanup_dir : Bytes → Program W (Unit {0})
  unfolding tolerates
  cleanup_dir path = tolerates (Call.rmdir (some path)) enoent (codes "rmdir cleanup")

  -- `errno = 0; if (f(…) != -1) fail_message(…); expect_errno_int(label, errno, err);`
  unfoldable pub fails_with : Program W ℤ → Bytes → Bytes → ℤ → Program W (Unit {0})
  unfolding does asks fail_if expect_errno_int
  fails_with m message label err = do
    does (o.put_errno (ℤ.pos 0))
    r ← m
    fail_if (not (int_eq r (ℤ.negsuc 0))) message
    errno ← asks (λ w. (o.errno w, w))
    expect_errno_int label errno err

  unfoldable pub write_file_exact : Bytes → Bytes → Program W (Unit {0})
  unfolding descriptor counts succeeds
  write_file_exact path content = do
    fd ← descriptor (Call.creat (some path) 0o644) (codes "creat helper")
    counts (Call.write fd (o.literal content) (length content)) (length content)
        (codes "write helper")
    succeeds (Call.close fd) (codes "close helper")
