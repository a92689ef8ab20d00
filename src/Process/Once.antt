-- ===== src/Process/Once.antt =====
-- The two initialisations that run once, and calls that need a symbol.
use ld_preload.Prelude.{
  Bool, if◌then◌else◌, arith, true, false, Option, none, some, ◌≡◌, inl, inr, refl, ◌∙◌, ap,
  Outcome, fault, hang, refuse, ok, Meets, Bool-cases,
}
use ld_preload.Libc.{Symbol, Call, Libc, enosys}
use ld_preload.Path.Prefix.{Policy}
use ld_preload.Policy.{init_rewrite_policy, from_name, to_name}
use ld_preload.Policy.Laws.{PolicyOf, init_rewrite_policy-PolicyOf}
use ld_preload.Process.{
  Process, M, pure, ◌>>=◌, attempt, ensure_symbols, resolve_symbols, get_rewrite_policy,
  require_symbol, invoke,
}
use ld_preload.Process.Laws.{
  IsLibc, IsSound, PolicyOf-IsSound, Keeps, Keeps-refl, Keeps-world, Runs, Runs-bind,
}

-- What a helper yields, or that it refuses.
abbrev pub Attempted : {A : Type 0} → Type 0 → (A → Type 0) → Option A → Type 0
Attempted E P none = E
Attempted E P (some a) = P a

module _ {W : Type 0} where
  pub Runs-pure :
      {A : Type 0} (R : A → Process W → Type 0) (a : A) (p : Process W)
      → IsSound p.rewrite_policy
      → R a p
      → Runs R (pure a) p
  Runs-pure R a p s h = (Keeps-refl p s, h)

  -- What runs behind code whose result is known.
  pub bind_ok :
      {A B : Type 0} (m : M W A) (f : A → M W B) (p : Process W) (r : A × Process W)
      → m p ≡ ok r
      → (m >>= f) p ≡ f r.0 r.1
  bind_ok {A} {B} m f p r h =
      ap
        (λ (o : Outcome (A × Process W)). elim o [
          | fault ↦ fault
          | hang ↦ hang
          | refuse ↦ refuse
          | ok (a, p') ↦ f a p'
        ])
        h

  pub attempt_lem :
      {A : Type 0} (E : Type 0) (P : A → Type 0) (m : Outcome A) (p : Process W)
      → IsSound p.rewrite_policy
      → Meets E P m
      → Runs (λ r q. (q ≡ p) × Attempted E P r) (attempt m) p
  attempt_lem E P fault p s h = absurd h
  attempt_lem E P hang p s h = absurd h
  attempt_lem E P refuse p s h = (Keeps-refl p s, (refl, h))
  attempt_lem E P (ok a) p s h = (Keeps-refl p s, (refl, h))

module _ {W : Type 0} (L : Libc W) where
  pub get_rewrite_policy_again :
      (p : Process W) → p.rewrite_once ≡ true → get_rewrite_policy L p ≡ ok (p.rewrite_policy, p)
  unfolding get_rewrite_policy
  get_rewrite_policy_again p h = rw h

  -- What the initial state becomes, by what `init_rewrite_policy` does.
  abbrev initialised : Process W → Outcome Policy → Outcome (Policy × Process W)
  initialised p o = elim o [
    | fault ↦ fault
    | hang ↦ hang
    | refuse ↦ refuse
    | ok policy ↦ ok (policy, record p { rewrite_once = true; rewrite_policy = policy })
  ]

  get_rewrite_policy_first :
      (p : Process W)
      → p.rewrite_once ≡ false
      → get_rewrite_policy L p ≡ initialised p (init_rewrite_policy (L.getenv p.world))
  unfolding get_rewrite_policy
  get_rewrite_policy_first p h = rw h

  -- The policy that a process comes to have: the one that it has once it is initialised, and before
  -- that what `init_rewrite_policy` makes of the environment.
  pub data Policed (p : Process W) (policy : Policy) : Type 0 where
    kept : p.rewrite_once ≡ true → policy ≡ p.rewrite_policy → Policed p policy
    made :
        p.rewrite_once ≡ false
        → init_rewrite_policy (L.getenv p.world) ≡ ok policy
        → Policed p policy

  abbrev pub with_policy : Process W → Policy → Process W
  with_policy p policy = record p { rewrite_once = true; rewrite_policy = policy }

  -- `policy` is that of `p`, and `q` is `p` initialised with it.
  abbrev pub Configured : Process W → Policy → Process W → Type 0
  Configured p policy q = Policed p policy × (q ≡ with_policy p policy)

  -- In a sound process `get_rewrite_policy` ends without a fault. It yields the policy of a process
  -- that is initialised, and else what `init_rewrite_policy` makes of the environment; the process is
  -- initialised with that policy, is sound, and is otherwise as it was.
  pub get_rewrite_policy_lem :
      IsLibc L
      → (p : Process W) → IsSound p.rewrite_policy
      → Runs (λ policy q. Configured p policy q) (get_rewrite_policy L) p
  get_rewrite_policy_lem l p s = elim (Bool-cases p.rewrite_once) [
    | inl e ↦
        rw (get_rewrite_policy_again p e)
          (Keeps-refl p s, (kept e refl, ap (λ (b : Bool). record p { rewrite_once = b }) e))
    | inr e ↦ rw (get_rewrite_policy_first p e) (
        first (init_rewrite_policy (L.getenv p.world)) refl e
          (init_rewrite_policy-PolicyOf (L.getenv p.world)))
  ]
    where
      first :
          (o : Outcome Policy)
          → init_rewrite_policy (L.getenv p.world) ≡ o
          → p.rewrite_once ≡ false
          → Meets ⊥ (PolicyOf (L.getenv p.world from_name) (L.getenv p.world to_name)) o
          → Meets ⊥ (λ r. Keeps p r.1 × Configured p r.0 r.1) (initialised p o)
      first fault i e h = absurd h
      first hang i e h = absurd h
      first refuse i e h = absurd h
      first (ok policy) i e h = (
        record {
          sound =
              PolicyOf-IsSound (L.getenv p.world from_name) (L.getenv p.world to_name) policy
                (l.getenv_text p.world from_name) (l.getenv_text p.world to_name) h;
          policy_kept = λ f. cc;
          symbols_kept = λ f. (f, refl);
        },
        (made e i, refl),
      )

  pub ensure_symbols_again :
      (p : Process W) → p.resolve_once ≡ true → ensure_symbols L p ≡ ok (tt, p)
  unfolding ensure_symbols
  ensure_symbols_again p h = simp h

  pub ensure_symbols_first :
      (p : Process W)
      → p.resolve_once ≡ false
      → ensure_symbols L p ≡ ok (tt, record p { resolve_once = true; real = L.dlsym p.world })
  unfolding ensure_symbols resolve_symbols
  ensure_symbols_first p h = simp h

  -- The process with its symbols resolved, by what `dlsym` finds unless they are already.
  abbrev pub with_symbols : Process W → Process W
  with_symbols p = record p {
    resolve_once = true;
    real = if p.resolve_once then p.real else L.dlsym p.world;
  }

  pub ensure_symbols_lem :
      (p : Process W)
      → IsSound p.rewrite_policy
      → Runs (λ _ q. q ≡ with_symbols p) (ensure_symbols L) p
  ensure_symbols_lem p s = elim (Bool-cases p.resolve_once) [
    | inl e ↦ rw (ensure_symbols_again p e) (Keeps-refl p s, already p e)
    | inr e ↦
        rw (ensure_symbols_first p e)
          (record { sound = s; policy_kept = λ f. (f, refl); symbols_kept = λ f. cc }, newly p e)
  ]
    where
      already : (p : Process W) → p.resolve_once ≡ true → p ≡ with_symbols p
      already p e = rw e refl

      newly :
          (p : Process W)
          → p.resolve_once ≡ false
          → record p { resolve_once = true; real = L.dlsym p.world } ≡ with_symbols p
      newly p e = rw e refl

  -- A call of the real function comes to an end, whatever it does, and leaves the policy alone.
  pub require_symbol_lem :
      {A : Type 0} (s : Symbol) (failure : A) (rest : M W A) (R : A → Process W → Type 0)
      (p : Process W)
      → IsSound p.rewrite_policy
      → ((q : Process W)
          → q ≡ with_symbols p
          → IsSound q.rewrite_policy
          → q.real s ≡ true
          → Runs R rest q)
      → ((q : Process W)
          → q ≡ with_symbols p
          → q.real s ≡ false
          → R failure (record q { world = L.set_errno enosys q.world }))
      → Runs R (require_symbol L s failure rest) p
  unfolding require_symbol
  require_symbol_lem s failure rest R p sp found missing =
      Runs-bind (λ _ q. q ≡ with_symbols p) R (ensure_symbols L) _ p (ensure_symbols_lem p sp)
        (λ _ q sq k h. elim (Bool-cases (q.real s)) [
          | inl e ↦ rw e (found q h sq e)
          | inr e ↦ rw e (Keeps-world q (L.set_errno enosys q.world) sq, missing q h e)
        ])

  pub invoke_lem :
      (c : Call) (p : Process W)
      → IsSound p.rewrite_policy
      → Runs (λ r q. r ≡ (L.call c p.world).0) (invoke L c) p
  unfolding invoke
  invoke_lem c p s = (Keeps-world p (L.call c p.world).1 s, refl)

  -- With the library initialised, the macro only tests the pointer.
  pub require_symbol_present :
      {A : Type 0} (s : Symbol) (failure : A) (rest : M W A) (p : Process W)
      → p.resolve_once ≡ true
      → p.real s ≡ true
      → require_symbol L s failure rest p ≡ rest p
  unfolding require_symbol
  require_symbol_present s failure rest p once h =
      bind_ok (ensure_symbols L) _ p (tt, p) (ensure_symbols_again p once) ∙ rw h refl

  pub require_symbol_missing :
      {A : Type 0} (s : Symbol) (failure : A) (rest : M W A) (p : Process W)
      → p.resolve_once ≡ true
      → p.real s ≡ false
      → require_symbol L s failure rest p
        ≡ ok (failure, record p { world = L.set_errno enosys p.world })
  unfolding require_symbol
  require_symbol_missing s failure rest p once h =
      bind_ok (ensure_symbols L) _ p (tt, p) (ensure_symbols_again p once) ∙ if_missing (p.real s) h
    where
      if_missing :
          (b : Bool)
          → b ≡ false
          → (if b then rest p else ok (failure, record p { world = L.set_errno enosys p.world }))
            ≡ ok (failure, record p { world = L.set_errno enosys p.world })
      if_missing true e = absurd (ground (arith, e))
      if_missing false e = refl
