-- ===== src/Path/Compose.antt =====
-- rtld_linux.c, the tails of `rewrite_absolute_path` and of `rewrite_relative_path_from_dirfd`: a
-- path is cleaned, alone or behind a base, and its prefix is substituted. Either step may fail.
use ld_preload.Prelude.{
  ℕ, ◌≤◌, ◌<◌, true, ◌∷◌, ◌++◌, some, ◌≡◌, arith, Bytes, IsCString, All-append, length,
  length-append, ◌≢◌, Outcome, ◌>>=◌, Meets, Meets-bind, Meets-map,
}
use ld_preload.Path.Clean.{path_max, slash, clean_path_into}
use ld_preload.Path.Clean.Refine.{clean_path_into-clean}
use ld_preload.Path.Join.{join_and_clean_path, join_and_clean_path-clean}
use ld_preload.Path.Normal.{clean}
use ld_preload.Path.Normal.NulFree.{clean-IsCString}
use ld_preload.Path.Prefix.{Policy, substitute_prefix}
use ld_preload.Path.Prefix.Laws.{IsMeasured}
use ld_preload.Path.Prefix.Substitute.{Moves, LeftAlone, substitute_prefix-Moves}

unfoldable pub clean_and_substitute : Policy → Bytes → ℕ → Outcome Bytes
clean_and_substitute policy path dst_len = do
  cleaned ← clean_path_into (some path) (some path_max) path_max
  substitute_prefix policy (some cleaned) dst_len dst_len

unfoldable pub join_and_substitute : Policy → Bytes → Bytes → ℕ → Outcome Bytes
join_and_substitute policy base path dst_len = do
  resolved ← join_and_clean_path (some base) (some path) (some path_max) path_max
  substitute_prefix policy (some resolved) dst_len dst_len

-- Why a path that means `whole` is passed on as it is.
pub data Unmoved (policy : Policy) (whole : Bytes) (dst_len : ℕ) : Type 0 where
  too_long : path_max ≤ length whole → Unmoved policy whole dst_len
  left_alone :
      LeftAlone policy.enabled policy.from policy.to (clean whole) dst_len
      → Unmoved policy whole dst_len

-- `t` is the clean text of `whole` with the prefix substituted, and fits.
abbrev pub Moved : Policy → Bytes → ℕ → Bytes → Type 0
Moved policy whole dst_len t =
    (policy.enabled ≡ true) × Moves policy.from policy.to (clean whole) t × (length t < dst_len)

module _ (policy : Policy) (m : IsMeasured policy) (dst_len : ℕ) where
  substitute_clean :
      (whole t : Bytes)
      → IsCString whole
      → t ≡ clean whole
      → Meets
          (Unmoved policy whole dst_len)
          (Moved policy whole dst_len)
          (substitute_prefix policy (some t) dst_len dst_len)
  substitute_clean whole t h e = rw e (
      Meets-map _ _ _ _ (substitute_prefix policy (some (clean whole)) dst_len dst_len)
        (substitute_prefix-Moves policy (clean whole) dst_len dst_len m (clean-IsCString whole h)
          (omega arith))
        left_alone (λ t p. p))

  pub clean_and_substitute_lem :
      (path : Bytes)
      → IsCString path
      → Meets
          (Unmoved policy path dst_len)
          (Moved policy path dst_len)
          (clean_and_substitute policy path dst_len)
  unfolding clean_and_substitute
  clean_and_substitute_lem path h =
      Meets-bind _ (λ t. (t ≡ clean path) × (length t < path_max)) _
        (clean_path_into (some path) (some path_max) path_max) _
        (Meets-map _ _ _ _ (clean_path_into (some path) (some path_max) path_max)
          (clean_path_into-clean path path_max path_max (omega arith)) (λ e. too_long (omega arith))
          (λ t p. p))
        (λ t p. substitute_clean path t h p.0)

  pub join_and_substitute_lem :
      (base path : Bytes)
      → IsCString base
      → IsCString path
      → Meets
          (Unmoved policy (base ++ slash ∷ path) dst_len)
          (Moved policy (base ++ slash ∷ path) dst_len)
          (join_and_substitute policy base path dst_len)
  unfolding join_and_substitute
  join_and_substitute_lem base path hb hp =
      Meets-bind _ (λ t. (t ≡ clean (base ++ slash ∷ path)) × (length t < path_max)) _
        (join_and_clean_path (some base) (some path) (some path_max) path_max) _
        (Meets-map _ _ _ _ (join_and_clean_path (some base) (some path) (some path_max) path_max)
          (join_and_clean_path-clean base path path_max path_max (omega arith))
          (λ e. too_long (omega (arith, length-append base (slash ∷ path)))) (λ t p. p))
        (λ t p.
          substitute_clean (base ++ slash ∷ path) t
            (All-append _ base (slash ∷ path) hb (slash_ne, hp)) p.0)
    where
      slash_ne : slash ≢ 0
      slash_ne = omega arith
