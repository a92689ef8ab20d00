-- ===== src/Smoke/Landing.antt =====
-- The helpers of the fixture, call by call against themselves with other paths.
use Prim.Native.Nat.{suc}
use ld_preload.Prelude.{
  ℕ, ◌+◌, ◌<◌, length-append, Bool, true, false, some, Bytes, ℤ, ◌≡◌, refl, leb, length, ◌++◌, ◌∷◌,
  arith,
}
use ld_preload.Interpose.Redirect.{redirect, Reaches}
use ld_preload.Libc.{Libc, Call, Symbol, Word}
use ld_preload.Path.Clean.{slash}
use ld_preload.Path.Prefix.{Policy}
use ld_preload.Process.Settled.{Available}
use ld_preload.Program.{Program, ◌>>=◌}
use ld_preload.Program.Lands.{Lands, done, exits, calls, number, text, Lands-bind}
use ld_preload.Smoke.{
  call, asks, does, reads, loads, when, die, die_if, fail_if, succeeds, counts, descriptor,
  make_path, expect_bytes, expect_child_status_zero, tolerates, write_file_exact,
}
use ld_preload.Smoke.Environment.{Outside}

-- The real functions that `write_file_exact` needs.
pub record CanWrite (real : Symbol → Bool) : Type 0 where
  pub creat : real Symbol.creat ≡ true
  pub write : real Symbol.write ≡ true
  pub close : real Symbol.close ≡ true

-- A call and the call of libc that it becomes.
pub record Becomes {W : Type 0} (L : Libc W) (real : Symbol → Bool) (policy : Policy) (c d : Call)
    : Type 0 where
  pub reaches : Reaches c
  pub found : Available real c
  pub agrees : (w : W) → L.call (redirect policy c) w ≡ L.call d w

module _ {W : Type 0} {L : Libc W} {real : Symbol → Bool} {policy : Policy} where
  pub call-Lands : (c d : Call) → Becomes L real policy c d → Lands L real policy (call c) (call d)
  unfolding call
  call-Lands c d h = calls h.reaches h.found h.agrees (λ r. done _)

  pub asks-Lands : (g : W → ℤ × W) → Lands L real policy (asks g) (asks g)
  unfolding asks
  asks-Lands g = number (λ r. done _)

  pub does-Lands : (g : W → W) → Lands L real policy (does g) (does g)
  unfolding does
  does-Lands g = number (λ r. done _)

  pub reads-Lands : (g : W → Word) → Lands L real policy (reads g) (reads g)
  unfolding reads
  reads-Lands g = number (λ r. done _)

  pub loads-Lands : (g : W → Bytes) → Lands L real policy (loads g) (loads g)
  unfolding loads
  loads-Lands g = text (λ r. done _)

  pub when-Lands :
      (b : Bool) (m n : Program W (Unit {0}))
      → Lands L real policy m n
      → Lands L real policy (when b m) (when b n)
  unfolding when
  when-Lands true m n h = h
  when-Lands false m n h = done _

module _ {W : Type 0} (o : Outside W) where
  -- A helper that makes a path, where the path fits.
  fits : (n d m k : ℕ) → k ≡ d + suc m → k < n → leb n (d + 1 + m) ≡ false
  fits n d m k e h = ground (arith, e, h)

  pub make_path_short :
      (dst_len : ℕ) (dir name : Bytes)
      → length (dir ++ slash ∷ name) < dst_len
      → make_path o dst_len dir name ≡ Program.done (dir ++ slash ∷ name)
  unfolding make_path fail_if when ◌>>=◌
  make_path_short dst_len dir name h =
      rw (fits dst_len (length dir) (length name) _ (length-append dir (slash ∷ name)) h) refl

  pub made-Lands :
      {A B : Type 0} (L : Libc W) (real : Symbol → Bool) (policy : Policy) {m n : Program W B}
      {a b : B} (f g : B → Program W A)
      → m ≡ Program.done a
      → n ≡ Program.done b
      → Lands L real policy (f a) (g b)
      → Lands L real policy (m >>= f) (n >>= g)
  unfolding ◌>>=◌
  made-Lands L real policy f g e d h = rw (e, d) h

module _ {W : Type 0} (o : Outside W) {L : Libc W} {real : Symbol → Bool} {policy : Policy} where
  exits_after :
      {A : Type 0} (g : W → W)
      → Lands {A = A} L real policy
          (does g >>= λ _. Program.exits 1)
          (does g >>= λ _. Program.exits 1)
  exits_after g = Lands-bind (does-Lands g) (λ _. exits 1)

  pub die_if-Lands :
      (b : Bool) (message : Bytes) → Lands L real policy (die_if o b message) (die_if o b message)
  unfolding die_if die
  die_if-Lands b message = when-Lands b _ _ (exits_after _)

  pub succeeds-Lands :
      (c d : Call) (message : Bytes)
      → Becomes L real policy c d
      → Lands L real policy (succeeds o c message) (succeeds o d message)
  unfolding succeeds
  succeeds-Lands c d message h = Lands-bind (call-Lands c d h) (λ r. die_if-Lands _ message)

  pub counts-Lands :
      (c d : Call) (n : ℕ) (message : Bytes)
      → Becomes L real policy c d
      → Lands L real policy (counts o c n message) (counts o d n message)
  unfolding counts
  counts-Lands c d n message h = Lands-bind (call-Lands c d h) (λ r. die_if-Lands _ message)

  pub descriptor-Lands :
      (c d : Call) (message : Bytes)
      → Becomes L real policy c d
      → Lands L real policy (descriptor o c message) (descriptor o d message)
  unfolding descriptor
  descriptor-Lands c d message h =
      Lands-bind (call-Lands c d h) (λ fd. Lands-bind (die_if-Lands _ message) (λ _. done _))

  pub tolerates-Lands :
      (c d : Call) (e : ℤ) (message : Bytes)
      → Becomes L real policy c d
      → Lands L real policy (tolerates o c e message) (tolerates o d e message)
  unfolding tolerates
  tolerates-Lands c d e message h =
      Lands-bind (call-Lands c d h)
        (λ r. Lands-bind (asks-Lands _) (λ errno. die_if-Lands _ message))

  pub expect_bytes-Lands :
      (label : Bytes) (a : Word) (e : Bytes) (n : ℕ)
      → Lands L real policy (expect_bytes o label a e n) (expect_bytes o label a e n)
  unfolding expect_bytes
  expect_bytes-Lands label a e n =
      Lands-bind (loads-Lands _) (λ found. when-Lands _ _ _ (exits_after _))

  pub expect_child_status_zero-Lands :
      (label : Bytes) (status : Word)
      → Lands L real policy
          (expect_child_status_zero o label status)
          (expect_child_status_zero o label status)
  unfolding expect_child_status_zero
  expect_child_status_zero-Lands label status = when-Lands _ _ _ (exits_after _)

  pub write_file_exact-Lands :
      (path landing content : Bytes)
      → CanWrite real
      → Becomes L real policy (Call.creat (some path) 0o644) (Call.creat (some landing) 0o644)
      → Lands L real policy (write_file_exact o path content) (write_file_exact o landing content)
  unfolding write_file_exact
  write_file_exact-Lands path landing content can h = Lands-bind (descriptor-Lands _ _ _ h) (λ fd.
      Lands-bind
        (counts-Lands _ _ _ _ (record { reaches = tt; found = can.write; agrees = λ w. refl }))
        (λ _.
          succeeds-Lands _ _ _ (record { reaches = tt; found = can.close; agrees = λ w. refl })))
