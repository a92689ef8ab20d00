-- ===== src/Path/Confined.antt =====
-- The names of a substituted path.
use ld_preload.Prelude.{
  true, List, [], ◌∷◌, ◌++◌, ◌≡◌, refl, sym, ◌∙◌, ap, subst, append-nil, All, Bytes, IsCString,
  Meets, Meets-map,
}
use ld_preload.Path.Clean.{slash, is_absolute, path_max}
use ld_preload.Path.Compose.{
  clean_and_substitute, join_and_substitute, Unmoved, Moved, clean_and_substitute_lem,
  join_and_substitute_lem,
}
use ld_preload.Path.Normal.{names, clean}
use ld_preload.Path.Normal.Laws.{IsProper, clean-IsProper}
use ld_preload.Path.Normal.Names.{names-append_slash}
use ld_preload.Path.Prefix.{Policy}
use ld_preload.Path.Prefix.Laws.{IsMeasured, AtBoundary}
use ld_preload.Path.Prefix.Substitute.{Moves}

-- The names of `t` are those of `to`, and behind them none that is `.` or `..`.
pub record Confined (to t : Bytes) : Type 0 where
  pub rest : List Bytes
  pub named : names t ≡ names to ++ rest
  pub proper : All IsProper rest

All-second : (xs ys : List Bytes) → All IsProper (xs ++ ys) → All IsProper ys
All-second [] ys h = h
All-second (x ∷ xs) ys h = All-second xs ys h.1

below :
    (old new suffix : Bytes)
    → AtBoundary suffix
    → All IsProper (names (old ++ suffix))
    → Confined new (new ++ suffix)
below old new [] b h = record {
  rest = [];
  named = ap names (append-nil new) ∙ sym (append-nil (names new));
  proper = tt;
}
below old new (c ∷ t) b h = record {
  rest = names t;
  named = ap (λ x. names (new ++ x ∷ t)) b ∙ names-append_slash new t;
  proper =
      All-second (names old) (names t) (
        subst (λ x. All IsProper x) (ap (λ x. names (old ++ x ∷ t)) b ∙ names-append_slash old t)
          h);
}

Moves-Confined :
    (old new path t : Bytes) → All IsProper (names path) → Moves old new path t → Confined new t
Moves-Confined old new path t h m =
    subst (λ x. Confined new x) (sym m.moved)
      (below old new m.under.suffix m.under.boundary
        (subst (λ x. All IsProper (names x)) m.under.splits h))

joined_absolute :
    (base path : Bytes) → is_absolute base ≡ true → is_absolute (base ++ slash ∷ path) ≡ true
joined_absolute [] path h = refl
joined_absolute (c ∷ s) path h = h

module _ (policy : Policy) (m : IsMeasured policy) where
  Moved-Confined :
      (whole t : Bytes)
      → is_absolute whole ≡ true
      → Moved policy whole path_max t
      → Confined policy.to t
  Moved-Confined whole t a h =
      Moves-Confined policy.from policy.to (clean whole) t (clean-IsProper whole a).1 h.1

  -- What cleaning and substituting make of an absolute path, and of a path joined to an absolute
  -- base, leads to `to` or below it: behind the names of `to` no name is `.` or `..`. Both end with
  -- no access outside an object, and write nothing only for a reason that `Unmoved` names.
  pub substitute-Confined :
      (base path : Bytes)
      → IsCString base
      → IsCString path
      → is_absolute path ≡ true
      → is_absolute base ≡ true
      → Meets
          (Unmoved policy path path_max)
          (Confined policy.to)
          (clean_and_substitute policy path path_max)
        × Meets
            (Unmoved policy (base ++ slash ∷ path) path_max)
            (Confined policy.to)
            (join_and_substitute policy base path path_max)
  substitute-Confined base path hb hp a b = (
    Meets-map _ _ _ _ (clean_and_substitute policy path path_max)
        (clean_and_substitute_lem policy m path_max path hp) (λ e. e)
        (λ t h. Moved-Confined path t a h),
    Meets-map _ _ _ _ (join_and_substitute policy base path path_max)
        (join_and_substitute_lem policy m path_max base path hb hp) (λ e. e)
        (λ t h. Moved-Confined (base ++ slash ∷ path) t (joined_absolute base path b) h),
  )
