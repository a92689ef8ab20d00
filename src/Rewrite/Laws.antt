-- ===== src/Rewrite/Laws.antt =====
-- The functions of Rewrite meet the relations of Rewrite.Relations.
use ld_preload.Prelude.{
  true, false, not, Option, none, some, ◌≡◌, inl, inr, refl, ap, ◌∙◌, arith, subst, Bytes,
  IsCString, if◌then◌else◌, Bool-cases,
}
use ld_preload.Libc.{Libc, PathArg}
use ld_preload.Path.Clean.{path_max, is_absolute}
use ld_preload.Path.Compose.{
  clean_and_substitute, clean_and_substitute_lem, Moved, Unmoved, left_alone,
}
use ld_preload.Path.Prefix.{Policy}
use ld_preload.Path.Prefix.Laws.{IsMeasured}
use ld_preload.Path.Prefix.Substitute.{LeftAlone}
use ld_preload.Process.{Process, pure, attempt, get_rewrite_policy}
use ld_preload.Process.Laws.{IsLibc, IsSound, Runs, Runs-bind, Runs-map, Runs-if}
use ld_preload.Process.Once.{Runs-pure, Attempted, attempt_lem, Configured, get_rewrite_policy_lem}
use ld_preload.Rewrite.{or_caller, rewrite_absolute_path, rewrite_path_argument}
use ld_preload.Rewrite.Relations.{Absolute, AbsoluteArg}

-- Every path given as an argument is a C string.
abbrev pub PathOk : PathArg → Type 0
PathOk none = Unit
PathOk (some path) = IsCString path

module _ {W : Type 0} (L : Libc W) (l : IsLibc L) where
  -- What `rewrite_absolute_path` tells of an absolute path.
  abbrev Filled : Process W → Bytes → Option Bytes → Process W → Type 0
  Filled p path r q =
      (policy : Policy) × Configured L p policy q
      × Attempted (Unmoved policy path path_max) (Moved policy path path_max) r

  rewrite_absolute_path_lem :
      (path : Bytes) (p : Process W)
      → IsSound p.rewrite_policy
      → IsCString path
      → is_absolute path ≡ true
      → Runs (Filled p path) (rewrite_absolute_path L (some path) path_max) p
  unfolding rewrite_absolute_path
  rewrite_absolute_path_lem path p s h a = rw a (
      Runs-bind (λ policy q. Configured L p policy q) (Filled p path) (get_rewrite_policy L) _ p
        (get_rewrite_policy_lem L l p s) (λ policy q sq k r. tail policy q sq r))
    where
      tail :
          (policy : Policy) (q : Process W)
          → IsSound q.rewrite_policy
          → Configured L p policy q
          → Runs
              (Filled p path)
              (if not policy.enabled
                then pure none
                else attempt (clean_and_substitute policy path path_max))
              q
      tail policy q sq c =
          Runs-if (Filled p path) (not policy.enabled) (pure none)
            (attempt (clean_and_substitute policy path path_max)) q
            (λ off.
              Runs-pure (Filled p path) none q sq
                (policy, c, left_alone (LeftAlone.disabled (ground (arith, off)))))
            (λ on.
              Runs-map _ (Filled p path) (attempt (clean_and_substitute policy path path_max)) q
                (attempt_lem (Unmoved policy path path_max) (Moved policy path path_max)
                  (clean_and_substitute policy path path_max) q sq
                  (clean_and_substitute_lem policy
                    (subst IsMeasured (ap (λ x. x.rewrite_policy) c.1) sq.measured) path_max path
                    h))
                (λ r t kt m. (policy, (c.0, m.0 ∙ c.1), m.1)))

  -- `Filled` in terms of the argument that is passed on.
  Absolute-of :
      (path : Bytes) (r : Option Bytes) (p q : Process W)
      → is_absolute path ≡ true
      → Filled p path r q
      → Absolute L p path (or_caller r (some path)) q
  Absolute-of path none p q a (policy, c, m) = Absolute.stays policy a c.0 m refl c.1
  Absolute-of path (some t) p q a (policy, c, m) = Absolute.moves policy t a c.0 m refl c.1

  rewrite_absolute_path_relative :
      (path : Bytes) (p : Process W)
      → IsSound p.rewrite_policy
      → is_absolute path ≡ false
      → Runs (λ r q. (r ≡ none) × (q ≡ p)) (rewrite_absolute_path L (some path) path_max) p
  unfolding rewrite_absolute_path
  rewrite_absolute_path_relative path p s a =
      rw a (Runs-pure (λ r q. (r ≡ none) × (q ≡ p)) none p s (refl, refl))

  -- In a sound process and for a C string or NULL, `rewrite_path_argument` ends without a fault and
  -- keeps the static state. It yields NULL for NULL and a relative path as it is, and changes
  -- nothing then; it yields an absolute path as it is or, if its clean text is under `from`, with
  -- `to` in the place of `from`, by the policy of the process, and initialises that policy.
  pub rewrite_path_argument_lem :
      (path : PathArg) (p : Process W)
      → IsSound p.rewrite_policy
      → PathOk path
      → Runs (λ b q. AbsoluteArg L p path b q) (rewrite_path_argument L path path_max) p
  unfolding rewrite_path_argument
  rewrite_path_argument_lem none p s h =
      Runs-pure (λ b q. (b ≡ none) × (q ≡ p)) none p s (refl, refl)
  rewrite_path_argument_lem (some path) p s h = elim (Bool-cases (is_absolute path)) [
    | inl a ↦
        Runs-bind (Filled p path) (λ b q. Absolute L p path b q)
          (rewrite_absolute_path L (some path) path_max) _ p
          (rewrite_absolute_path_lem path p s h a)
          (λ r q sq k f.
            Runs-pure (λ b q. Absolute L p path b q) (or_caller r (some path)) q sq
              (Absolute-of path r p q a f))
    | inr a ↦
        Runs-bind (λ r q. (r ≡ none) × (q ≡ p)) (λ b q. Absolute L p path b q)
          (rewrite_absolute_path L (some path) path_max) _ p
          (rewrite_absolute_path_relative path p s a)
          (λ r q sq k e.
            Runs-pure (λ b q. Absolute L p path b q) (or_caller r (some path)) q sq
              (Absolute.relative a (ap (λ (x : Option Bytes). or_caller x (some path)) e.0) e.1))
  ]
