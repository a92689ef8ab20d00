-- ===== src/Smoke/Writes.antt =====
-- How `write_file_exact` ends, on each of its branches.
use ld_preload.Prelude.{
  Bool, true, false, some, ◌≡◌, ap, ok, refl, Bytes, codes, length, ◌++◌, ℤ, int_eq,
}
use ld_preload.Libc.{Libc, Call}
use ld_preload.Process.{Process}
use ld_preload.Process.Laws.{IsSound}
use ld_preload.Process.Settled.{IsSettled}
use ld_preload.Rewrite.Exact.{sent, IsShort}
use ld_preload.Program.Lands.{run-Lands}
use ld_preload.Smoke.Landing.{CanWrite, write_file_exact-Lands}
use ld_preload.Program.{run, Ending, returned, exited, plain, ◌>>=◌}
use ld_preload.Smoke.{
  call, does, when, line, die, die_if, is_negative, descriptor, counts, succeeds, write_file_exact,
}
use ld_preload.Smoke.Environment.{Outside}

module _ {W : Type 0} (o : Outside W) (L : Libc W) (path content : Bytes) (w : W) where
  -- The three calls, each in the world that the one before left.
  abbrev pub made : ℤ × W
  made = L.call (Call.creat (some path) 0o644) w

  abbrev pub written : ℤ × W
  written = L.call (Call.write made.0 (o.literal content) (length content)) made.1

  abbrev pub closed : ℤ × W
  closed = L.call (Call.close made.0) written.1

  abbrev pub complained : Bytes → W → W
  complained message v = o.report (line message (codes ": " ++ o.strerror (o.errno v))) v

  pub data Writes : Ending (Unit {0}) × W → Type 0 where
    not_made :
        is_negative made.0 ≡ true → Writes (exited 1, complained (codes "creat helper") made.1)
    not_written :
        is_negative made.0 ≡ false
        → int_eq written.0 (ℤ.pos (length content)) ≡ false
        → Writes (exited 1, complained (codes "write helper") written.1)
    not_closed :
        is_negative made.0 ≡ false
        → int_eq written.0 (ℤ.pos (length content)) ≡ true
        → int_eq closed.0 (ℤ.pos 0) ≡ false
        → Writes (exited 1, complained (codes "close helper") closed.1)
    all_done :
        is_negative made.0 ≡ false
        → int_eq written.0 (ℤ.pos (length content)) ≡ true
        → int_eq closed.0 (ℤ.pos 0) ≡ true
        → Writes (returned tt, closed.1)

  -- Over libc alone, `write_file_exact` returns exactly when `creat` gives a descriptor, `write`
  -- takes all bytes and `close` answers 0, and its world is the one behind `close`. At the first
  -- of the three that fails it reports the text for that call with the error of that moment, makes
  -- no further call, and exits with status 1.
  plain-write_file_exact : Writes (plain L (write_file_exact o path content) w)
  unfolding plain ◌>>=◌ write_file_exact descriptor counts succeeds call die_if when die does
  plain-write_file_exact = by_tests _ _ _ refl refl refl
    where
      by_tests :
          (a b c : Bool)
          → is_negative made.0 ≡ a
          → int_eq written.0 (ℤ.pos (length content)) ≡ b
          → int_eq closed.0 (ℤ.pos 0) ≡ c
          → Writes (plain L (write_file_exact o path content) w)
      by_tests true b c e f g = rw (plain, e) (not_made e)
      by_tests false false c e f g = rw (plain, e, f) (not_written e f)
      by_tests false true false e f g = rw (plain, e, f, g) (not_closed e f g)
      by_tests false true true e f g = rw (plain, e, f, g) (all_done e f g)

module _ {W : Type 0} (o : Outside W) (L : Libc W) where
  -- With the library, in a settled process that has the real `creat`, `write` and `close` and sends a C string below PATH_MAX to `landing`:
  -- `write_file_exact` ends, and on each branch as it would over libc alone with `landing`: it
  -- returns exactly when `creat`, `write` and `close` all succeed there, and else reports the error
  -- of the first that fails, makes no further call, and exits with status 1.
  pub write_file_exact-Writes :
      (path landing content : Bytes) (p : Process W)
      → IsSettled p
      → CanWrite p.real
      → IsSound p.rewrite_policy
      → IsShort (some path)
      → sent p.rewrite_policy (some path) ≡ some landing
      → (e : Ending (Unit {0}) × W) × (run L (write_file_exact o path content) p
          ≡ ok (e.0, record p { world = e.1 }))
        × Writes o L landing content p.world e
  write_file_exact-Writes path landing content p h found s short sends = (
    plain L (write_file_exact o landing content) p.world,
    run-Lands L p
        (write_file_exact-Lands o path landing content found (record {
          reaches = short;
          found = found.creat;
          agrees = λ w. ap (λ x. L.call (Call.creat x 0o644) w) sends;
        }))
        h s,
    plain-write_file_exact o L landing content p.world,
  )
