-- ===== src/Policy/Laws.antt =====
-- When rewriting is enabled, and with which prefixes.
use ld_preload.Prelude.{
  ◌≤◌, ◌<◌, true, false, not, ◌||◌, [], ◌∷◌, Option, none, some, ◌≡◌, ◌⊎◌, inl, inr, refl, arith,
  Bool-cases, Bytes, length, Outcome, fault, hang, refuse, ok, ◌>>=◌, ◌>>◌, refuse_if, Meets,
  Meets-bind, Meets-map,
}
use ld_preload.Path.Clean.{path_max, is_absolute, clean_path_into}
use ld_preload.Path.Clean.Refine.{clean_path_into-clean}
use ld_preload.Path.Normal.{clean}
use ld_preload.Path.Normal.Laws.{clean-IsProper}
use ld_preload.Path.Prefix.{Policy}
use ld_preload.Policy.{
  from_name, to_name, disabled_policy, policy_of, is_missing, configure, recover,
  init_rewrite_policy,
}

-- A variable that rewriting cannot do with: absent, not absolute, or as long as PATH_MAX.
abbrev pub IsUnusable : Option Bytes → Type 0
IsUnusable none = Unit
IsUnusable (some s) = (is_absolute s ≡ false) ⊎ (path_max ≤ length s)

-- The policy that an environment stands for.
pub data PolicyOf (from_env to_env : Option Bytes) (p : Policy) : Type 0 where
  unusable :
      IsUnusable from_env ⊎ IsUnusable to_env → p ≡ disabled_policy → PolicyOf from_env to_env p
  usable :
      (f t : Bytes)
      → from_env ≡ some f
      → to_env ≡ some t
      → is_absolute f ≡ true
      → is_absolute t ≡ true
      → p ≡ policy_of (clean f) (clean t)
      → length (clean f) < path_max
      → length (clean t) < path_max
      → PolicyOf from_env to_env p

missing-IsUnusable : (e : Option Bytes) → is_missing e ≡ true → IsUnusable e
missing-IsUnusable none h = tt
missing-IsUnusable (some []) h = inl refl
missing-IsUnusable (some (c ∷ s)) h = inl (ground arith)

clean_variable :
    (s : Bytes)
    → Meets
        (IsUnusable (some s))
        (λ t. (t ≡ clean s) × (length t < path_max))
        (clean_path_into (some s) (some path_max) path_max)
clean_variable s =
    Meets-map _ _ _ _ (clean_path_into (some s) (some path_max) path_max)
      (clean_path_into-clean s path_max path_max (omega arith)) (λ h. inr (omega arith)) (λ t h. h)

absolute_present : (s : Bytes) → is_absolute s ≡ true → is_missing (some s) ≡ false
absolute_present s h = ground arith

-- The part of `configure` behind its first two tests.
abbrev cleaned_policy : Bytes → Bytes → Outcome Policy
cleaned_policy f t = do
  cleaned_from ← clean_path_into (some f) (some path_max) path_max
  cleaned_to ← clean_path_into (some t) (some path_max) path_max
  refuse_if (not (is_absolute cleaned_from) || not (is_absolute cleaned_to))
  ok (policy_of cleaned_from cleaned_to)

module _ (f t : Bytes) where
  abbrev Unusable : Type 0
  Unusable = IsUnusable (some f) ⊎ IsUnusable (some t)

  cleaned_policy-PolicyOf :
      is_absolute f ≡ true
      → is_absolute t ≡ true
      → Meets Unusable (PolicyOf (some f) (some t)) (cleaned_policy f t)
  cleaned_policy-PolicyOf hf ht =
      Meets-bind _ (λ x. (x ≡ clean f) × (length x < path_max)) _
        (clean_path_into (some f) (some path_max) path_max) _
        (Meets-map _ _ _ _ (clean_path_into (some f) (some path_max) path_max) (clean_variable f)
          (λ h. inl h) (λ x h. h))
        (λ x p.
          Meets-bind _ (λ y. (y ≡ clean t) × (length y < path_max)) _
            (clean_path_into (some t) (some path_max) path_max) _
            (Meets-map _ _ _ _ (clean_path_into (some t) (some path_max) path_max)
              (clean_variable t) (λ h. inr h) (λ y h. h))
            (λ y q. both_absolute x y p q))
    where
      both_absolute :
          (x y : Bytes)
          → (x ≡ clean f) × (length x < path_max)
          → (y ≡ clean t) × (length y < path_max)
          → Meets Unusable
              (PolicyOf (some f) (some t))
              (refuse_if (not (is_absolute x) || not (is_absolute y)) >> ok (policy_of x y))
      both_absolute x y p q =
          rw (p.0, q.0, (clean-IsProper f hf).0, (clean-IsProper t ht).0)
            (usable f t refl refl hf ht refl (rw p.0 at p.1) (rw q.0 at q.1))

  configure_absolute :
      is_absolute f ≡ true → is_absolute t ≡ true → configure (some f) (some t) ≡ cleaned_policy f t
  unfolding configure
  configure_absolute hf ht = rw (absolute_present f hf, absolute_present t ht, hf, ht)

  configure_relative :
      (is_absolute f ≡ false) ⊎ (is_absolute t ≡ false) → configure (some f) (some t) ≡ refuse
  unfolding configure
  configure_relative h = ground arith

  configure-PolicyOf : Meets Unusable (PolicyOf (some f) (some t)) (configure (some f) (some t))
  configure-PolicyOf = elim (Bool-cases (is_absolute f)) [
    | inl hf ↦ elim (Bool-cases (is_absolute t)) [
      | inl ht ↦ rw (configure_absolute hf ht) (cleaned_policy-PolicyOf hf ht)
      | inr ht ↦ rw (configure_relative (inr ht)) (inr (inl ht))
    ]
    | inr hf ↦ rw (configure_relative (inl hf)) (inl (inl hf))
  ]

configure_missing :
    (from_env to_env : Option Bytes)
    → (from_env ≡ none) ⊎ (to_env ≡ none)
    → configure from_env to_env ≡ refuse
unfolding configure
configure_missing none to_env h = refl
configure_missing (some f) none h = ground arith
configure_missing (some f) (some t) h = absurd (ground arith)

recover-PolicyOf :
    (from_env to_env : Option Bytes) (m : Outcome Policy)
    → Meets (IsUnusable from_env ⊎ IsUnusable to_env) (PolicyOf from_env to_env) m
    → Meets ⊥ (PolicyOf from_env to_env) (recover m disabled_policy)
recover-PolicyOf from_env to_env refuse h = unusable h refl
recover-PolicyOf from_env to_env fault h = absurd h
recover-PolicyOf from_env to_env hang h = absurd h
recover-PolicyOf from_env to_env (ok p) h = h

configure_lem :
    (from_env to_env : Option Bytes)
    → Meets
        (IsUnusable from_env ⊎ IsUnusable to_env)
        (PolicyOf from_env to_env)
        (configure from_env to_env)
configure_lem none to_env = rw (configure_missing none to_env (inl refl)) (inl tt)
configure_lem (some f) none = rw (configure_missing (some f) none (inr refl)) (inr tt)
configure_lem (some f) (some t) = configure-PolicyOf f t

-- In every environment `init_rewrite_policy` comes to an end with no access outside an object. The
-- policy is disabled, with empty prefixes, only if one of the two variables is absent, not absolute
-- or as long as PATH_MAX; else it is enabled only if both are absolute, and its prefixes are their
-- clean texts, with their lengths, shorter than PATH_MAX.
pub init_rewrite_policy-PolicyOf :
    (getenv : Bytes → Option Bytes)
    → Meets ⊥ (PolicyOf (getenv from_name) (getenv to_name)) (init_rewrite_policy getenv)
unfolding init_rewrite_policy
init_rewrite_policy-PolicyOf getenv =
    recover-PolicyOf (getenv from_name) (getenv to_name) _
      (configure_lem (getenv from_name) (getenv to_name))
