-- ===== src/Process/Laws.antt =====
-- What the static state of the library keeps, and a rule for code that runs in it.
use ld_preload.Prelude.{
  ℕ, ◌<◌, Bool, true, false, Option, some, ◌≡◌, refl, ◌∙◌, arith, Bytes, IsCString, length, Outcome,
  fault, hang, refuse, ok, Meets, if◌then◌else◌,
}
use ld_preload.Libc.{Libc}
use ld_preload.Path.Clean.{path_max}
use ld_preload.Path.Normal.NulFree.{clean-IsCString}
use ld_preload.Path.Prefix.{Policy}
use ld_preload.Path.Prefix.Laws.{IsMeasured}
use ld_preload.Policy.{disabled_policy}
use ld_preload.Policy.Laws.{PolicyOf, unusable, usable}
use ld_preload.Process.{Process, M, ◌>>=◌}

-- What the code relies on: a string of the C library has no NUL inside.
pub record IsLibc {W : Type 0} (L : Libc W) : Type 0 where
  pub getenv_text : (w : W) (name s : Bytes) → L.getenv w name ≡ some s → IsCString s
  pub getcwd_text : (size : ℕ) (w : W) (s : Bytes) → (L.getcwd size w).0 ≡ some s → IsCString s
  pub readlink_text :
      (path : Bytes) (size : ℕ) (w : W) (s : Bytes)
      → (L.readlink path size w).0 ≡ some s
      → IsCString s

pub record IsSound (p : Policy) : Type 0 where
  pub measured : IsMeasured p
  pub from_text : IsCString p.from
  pub to_text : IsCString p.to
  pub from_short : length p.from < path_max
  pub to_short : length p.to < path_max

pub disabled-IsSound : IsSound disabled_policy
disabled-IsSound = record {
  measured = record { from_measured = refl; to_measured = refl };
  from_text = tt;
  to_text = tt;
  from_short = omega arith;
  to_short = omega arith;
}

pub PolicyOf-IsSound :
    (from_env to_env : Option Bytes) (p : Policy)
    → ((s : Bytes) → from_env ≡ some s → IsCString s)
    → ((s : Bytes) → to_env ≡ some s → IsCString s)
    → PolicyOf from_env to_env p
    → IsSound p
PolicyOf-IsSound from_env to_env p hf ht (unusable _ e) = rw e disabled-IsSound
PolicyOf-IsSound from_env to_env p hf ht (usable f t ef et af at e lf lt) = rw e (record {
  measured = record { from_measured = refl; to_measured = refl };
  from_text = clean-IsCString f (hf f ef);
  to_text = clean-IsCString t (ht t et);
  from_short = lf;
  to_short = lt;
})

module _ {W : Type 0} where
  -- From `p` on to `q`: the policy is sound, and what was initialised once stays as it is.
  pub record Keeps (p q : Process W) : Type 0 where
    pub sound : IsSound q.rewrite_policy
    pub policy_kept :
        p.rewrite_once ≡ true → (q.rewrite_once ≡ true) × (q.rewrite_policy ≡ p.rewrite_policy)
    pub symbols_kept : p.resolve_once ≡ true → (q.resolve_once ≡ true) × (q.real ≡ p.real)

  pub Keeps-refl : (p : Process W) → IsSound p.rewrite_policy → Keeps p p
  Keeps-refl p s = record { sound = s; policy_kept = λ h. (h, refl); symbols_kept = λ h. (h, refl) }

  pub Keeps-world :
      (p : Process W) (w : W) → IsSound p.rewrite_policy → Keeps p (record p { world = w })
  Keeps-world p w s = record {
    sound = s;
    policy_kept = λ h. (h, refl);
    symbols_kept = λ h. (h, refl);
  }

  pub Keeps-trans : {p q r : Process W} → Keeps p q → Keeps q r → Keeps p r
  Keeps-trans a b = record {
    sound = b.sound;
    policy_kept = λ h.
        let (once, same) = a.policy_kept h in
        let (once', same') = b.policy_kept once in (once', same' ∙ same);
    symbols_kept = λ h.
        let (once, same) = a.symbols_kept h in
        let (once', same') = b.symbols_kept once in (once', same' ∙ same);
  }

  -- The code comes to an end without a fault, keeps the static state, and meets `R`.
  abbrev pub Runs : {A : Type 0} → (A → Process W → Type 0) → M W A → Process W → Type 0
  Runs R m p = Meets ⊥ (λ r. Keeps p r.1 × R r.0 r.1) (m p)

  pub Runs-bind :
      {A B : Type 0} (R : A → Process W → Type 0) (S : B → Process W → Type 0) (m : M W A)
      (f : A → M W B) (p : Process W)
      → Runs R m p
      → ((a : A) (q : Process W) → IsSound q.rewrite_policy → Keeps p q → R a q → Runs S (f a) q)
      → Runs S (m >>= f) p
  Runs-bind {A} {B} R S m f p h k = go (m p) h
    where
      after :
          (a : A) (q : Process W)
          → Keeps p q
          → R a q
          → Meets ⊥ (λ r. Keeps p r.1 × S r.0 r.1) (f a q)
      after a q kp r = weaken (f a q) (k a q kp.sound kp r)
        where
          weaken :
              (o : Outcome (B × Process W))
              → Meets ⊥ (λ r. Keeps q r.1 × S r.0 r.1) o
              → Meets ⊥ (λ r. Keeps p r.1 × S r.0 r.1) o
          weaken fault h = h
          weaken hang h = h
          weaken refuse h = h
          weaken (ok (b, t)) h = (Keeps-trans kp h.0, h.1)

      go :
          (o : Outcome (A × Process W))
          → Meets ⊥ (λ r. Keeps p r.1 × R r.0 r.1) o
          → Meets ⊥
              (λ r. Keeps p r.1 × S r.0 r.1)
              (elim o [ fault ↦ fault | hang ↦ hang | refuse ↦ refuse | ok (a, p') ↦ f a p' ])
      go fault h = absurd h
      go hang h = absurd h
      go refuse h = absurd h
      go (ok (a, q)) h = after a q h.0 h.1

  pub Runs-map :
      {A : Type 0} (R S : A → Process W → Type 0) (m : M W A) (p : Process W)
      → Runs R m p
      → ((a : A) (q : Process W) → Keeps p q → R a q → S a q)
      → Runs S m p
  Runs-map {A} R S m p h k = go (m p) h
    where
      go :
          (o : Outcome (A × Process W))
          → Meets ⊥ (λ r. Keeps p r.1 × R r.0 r.1) o
          → Meets ⊥ (λ r. Keeps p r.1 × S r.0 r.1) o
      go fault h = h
      go hang h = h
      go refuse h = h
      go (ok (a, q)) h = (h.0, k a q h.0 h.1)

  pub Runs-if :
      {A : Type 0} (R : A → Process W → Type 0) (b : Bool) (m n : M W A) (p : Process W)
      → (b ≡ true → Runs R m p)
      → (b ≡ false → Runs R n p)
      → Runs R (if b then m else n) p
  Runs-if R true m n p h k = h refl
  Runs-if R false m n p h k = k refl

  -- The result, kept as an equation.
  pub Runs-eq :
      {A : Type 0} (R : A → Process W → Type 0) (m : M W A) (p : Process W)
      → Runs R m p
      → Runs (λ a q. R a q × (m p ≡ ok (a, q))) m p
  Runs-eq {A} R m p h = go (m p) refl h
    where
      go :
          (o : Outcome (A × Process W))
          → m p ≡ o
          → Meets ⊥ (λ r. Keeps p r.1 × R r.0 r.1) o
          → Meets ⊥ (λ r. Keeps p r.1 × (R r.0 r.1 × (m p ≡ ok (r.0, r.1)))) o
      go fault e h = h
      go hang e h = h
      go refuse e h = h
      go (ok (a, q)) e h = (h.0, (h.1, e))
