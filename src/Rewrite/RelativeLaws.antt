-- ===== src/Rewrite/RelativeLaws.antt =====
-- `rewrite_relative_path_from_dirfd`, and the result in terms of what the wrappers pass on.
use ld_preload.Prelude.{
  ◌++◌, ◌∷◌, true, false, not, Option, none, some, ◌≡◌, refl, sym, ap, ◌∙◌, subst, arith, Bytes,
  IsCString, ℤ, int_eq, if◌then◌else◌,
}
use ld_preload.Libc.{Libc, at_fdcwd}
use ld_preload.Path.Clean.{path_max, slash, is_absolute}
use ld_preload.Path.Compose.{join_and_substitute, join_and_substitute_lem, Moved, Unmoved}
use ld_preload.Path.Prefix.{Policy}
use ld_preload.Process.{Process, M, pure, ◌>>=◌, attempt, ensure_symbols, get_rewrite_policy}
use ld_preload.Process.Laws.{IsLibc, IsSound, Runs, Runs-bind, Runs-map, Runs-if}
use ld_preload.Process.Once.{
  Runs-pure, Attempted, attempt_lem, Policed, Configured, with_policy, with_symbols,
  get_rewrite_policy_lem, ensure_symbols_lem,
}
use ld_preload.Rewrite.{
  or_caller_at, join_to_base, base_of_cwd, base_of_fd, rewrite_relative_path_from_dirfd,
}
use ld_preload.Rewrite.BaseLaws.{Found, base_of_lem}
use ld_preload.Rewrite.Relations.{Relative, ready}

module _ {W : Type 0} (L : Libc W) (l : IsLibc L) (dirfd : ℤ) (path : Bytes) where
  -- The result of the function, in terms of what is passed on.
  abbrev Passed : Process W → Option Bytes → Process W → Type 0
  Passed p r q =
      Relative L p dirfd path (or_caller_at dirfd (some path) r).0
        (or_caller_at dirfd (some path) r).1 q

  -- The rewriting of a process, up to the lookup of the base.
  record IsOn (p : Process W) (policy : Policy) : Type 0 where
    policed : Policed L p policy
    enabled : policy.enabled ≡ true

  join_to_base_lem :
      (base : Option Bytes) (p : Process W) (policy : Policy) (q : Process W)
      → IsSound q.rewrite_policy
      → IsCString path
      → IsOn p policy
      → q.rewrite_policy ≡ policy
      → Found L l dirfd (ready L p policy) base q
      → Runs (Passed p) (join_to_base path_max path base) q
  unfolding join_to_base
  join_to_base_lem none p policy q s h on same b =
      Runs-pure (Passed p) none q s (Relative.baseless policy on.policed on.enabled b.1 refl refl)
  join_to_base_lem (some base) p policy q s h on same b =
      Runs-map _ (Passed p) (attempt (join_and_substitute q.rewrite_policy base path path_max)) q
        (attempt_lem _ _ _ q s
          (join_and_substitute_lem q.rewrite_policy s.measured path_max base path b.0 h))
        (λ r t k m.
          subst (λ u. Passed p r u) (sym m.0)
            (passed r (
              subst
                (λ (x : Policy).
                  Attempted (Unmoved x (base ++ slash ∷ path) path_max)
                    (Moved x (base ++ slash ∷ path) path_max) r)
                same m.1)))
    where
      passed :
          (r : Option Bytes)
          → Attempted
              (Unmoved policy (base ++ slash ∷ path) path_max)
              (Moved policy (base ++ slash ∷ path) path_max)
              r
          → Passed p r q
      passed none m = Relative.stays policy base on.policed on.enabled b.1 m refl refl
      passed (some u) m = Relative.moves policy base u on.policed on.enabled b.1 m refl refl

  abbrev behind_symbols : M W (Option Bytes)
  behind_symbols = (if int_eq dirfd at_fdcwd then base_of_cwd L else base_of_fd L dirfd) >>= λ base.
      join_to_base path_max path base

  behind_base :
      (p : Process W) (policy : Policy)
      → IsSound policy
      → IsCString path
      → IsOn p policy
      → Runs (Passed p) behind_symbols (ready L p policy)
  behind_base p policy s h on =
      Runs-bind (Found L l dirfd (ready L p policy)) (Passed p)
        (if int_eq dirfd at_fdcwd then base_of_cwd L else base_of_fd L dirfd)
        (λ base. join_to_base path_max path base) (ready L p policy)
        (base_of_lem L l dirfd (ready L p policy) s refl)
        (λ base q sq k f. join_to_base_lem base p policy q sq h on (k.policy_kept refl).1 f)

  enabled_lem :
      (p : Process W) (policy : Policy) (q : Process W)
      → IsSound q.rewrite_policy
      → IsCString path
      → q ≡ with_policy L p policy
      → IsOn p policy
      → Runs (Passed p) (ensure_symbols L >>= λ _. behind_symbols) q
  enabled_lem p policy q s h e on =
      Runs-bind (λ _ t. t ≡ with_symbols L q) (Passed p) (ensure_symbols L) (λ _. behind_symbols) q
        (ensure_symbols_lem L q s)
        (λ _ t st k at.
          subst (λ (x : Process W). Runs (Passed p) behind_symbols x)
            (sym (at ∙ ap (λ x. with_symbols L x) e))
            (behind_base p policy (subst IsSound (ap (λ x. x.rewrite_policy) e) s) h on))

  pub relative_lem :
      (p : Process W)
      → IsSound p.rewrite_policy
      → IsCString path
      → is_absolute path ≡ false
      → Runs (Passed p) (rewrite_relative_path_from_dirfd L dirfd (some path) path_max) p
  unfolding rewrite_relative_path_from_dirfd
  relative_lem p s h a = rw a (
      Runs-bind (λ policy q. Configured L p policy q) (Passed p) (get_rewrite_policy L) _ p
        (get_rewrite_policy_lem L l p s)
        (λ policy q sq k r.
          Runs-if (Passed p) (not policy.enabled) (pure none) _ q
            (λ off.
              Runs-pure (Passed p) none q sq
                (Relative.disabled policy r.0 (ground (arith, off)) refl refl r.1))
            (λ on.
              enabled_lem p policy q sq h r.1
                (record { policed = r.0; enabled = ground (arith, on) }))))
