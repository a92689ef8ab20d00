-- ===== src/Smoke/Helpers.antt =====
-- What `write_file_exact` calls, and the helpers of the fixture below it.
use ld_preload.Prelude.{ℕ, Bool, true, false, Option, some, Bytes, ℤ, length}
use ld_preload.Libc.{Call}
use ld_preload.Program.{Program, ◌>>=◌}
use ld_preload.Program.Each.{Each, done, exits, calls, number, Each-bind}
use ld_preload.Program.Transparent.{Any}
use ld_preload.Smoke.{call, does, when, die, die_if, succeeds, counts, descriptor, write_file_exact}
use ld_preload.Smoke.Environment.{Outside}

module _ {W : Type 0} {P : Call → Type 0} {Q : Option ℕ → ℕ → Type 0} where
  pub call-Each : (c : Call) → P c → Each P Q Any (call {W = W} c)
  unfolding call
  call-Each c p = calls p (λ r. done tt)

  pub does-Each : (g : W → W) → Each P Q Any (does g)
  unfolding does
  does-Each g = number (λ r. done tt)

  pub when-Each : (b : Bool) (m : Program W (Unit {0})) → Each P Q Any m → Each P Q Any (when b m)
  unfolding when
  when-Each true m h = h
  when-Each false m h = done tt

module _ {W : Type 0} (o : Outside W) {P : Call → Type 0} {Q : Option ℕ → ℕ → Type 0} where
  exits_behind :
      {A : Type 0} {R : A → Type 0} (g : W → W) → Each P Q R (does g >>= λ _. Program.exits 1)
  exits_behind g = Each-bind (does-Each g) (λ _ _. exits 1)

  pub die-Each : {A : Type 0} {R : A → Type 0} (message : Bytes) → Each P Q R (die o message)
  unfolding die
  die-Each message = exits_behind _

  pub die_if-Each : (b : Bool) (message : Bytes) → Each P Q Any (die_if o b message)
  unfolding die_if
  die_if-Each b message = when-Each b _ (die-Each message)

  pub succeeds-Each : (c : Call) (message : Bytes) → P c → Each P Q Any (succeeds o c message)
  unfolding succeeds
  succeeds-Each c message p = Each-bind (call-Each c p) (λ r _. die_if-Each _ message)

  pub counts-Each : (c : Call) (n : ℕ) (message : Bytes) → P c → Each P Q Any (counts o c n message)
  unfolding counts
  counts-Each c n message p = Each-bind (call-Each c p) (λ r _. die_if-Each _ message)

  pub descriptor-Each : (c : Call) (message : Bytes) → P c → Each P Q Any (descriptor o c message)
  unfolding descriptor
  descriptor-Each c message p =
      Each-bind (call-Each c p) (λ r _. Each-bind (die_if-Each _ message) (λ _ _. done tt))

  pub write_file_exact-Each :
      (path content : Bytes)
      → P (Call.creat (some path) 0o644)
      → ((fd : ℤ) → P (Call.write fd (o.literal content) (length content)) × P (Call.close fd))
      → Each P Q Any (write_file_exact o path content)
  unfolding write_file_exact
  write_file_exact-Each path content p h =
      Each-bind (descriptor-Each _ _ p)
        (λ fd _. Each-bind (counts-Each _ _ _ (h fd).0) (λ _ _. succeeds-Each _ _ (h fd).1))
