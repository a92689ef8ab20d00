-- ===== src/Path/Translate.antt =====
-- Where the library sends an absolute path: a function of the policy and the path, stated by the
-- abstract clean text.
use ld_preload.Prelude.{
  ◌<◌, Bool, true, false, ◌&&◌, ◌++◌, ◌≡◌, inl, inr, refl, sym, ◌∙◌, ap, arith, ltb, Bool-cases,
  if◌then◌else◌, Bytes, IsCString, length, drop, drop-append, Outcome, fault, hang, refuse, ok,
  Meets,
}
use ld_preload.Path.Clean.{path_max}
use ld_preload.Path.Compose.{
  clean_and_substitute, Unmoved, too_long, left_alone, Moved, clean_and_substitute_lem,
}
use ld_preload.Path.Normal.{clean}
use ld_preload.Path.Prefix.{Policy}
use ld_preload.Path.Prefix.Laws.{IsUnder, IsMeasured, is_under, is_under_sound, is_under-IsUnder}
use ld_preload.Path.Prefix.Substitute.{LeftAlone, disabled, outside, too_big}

-- The clean text with `to` for `from`, without a look at whether it stands under `from`.
abbrev pub replaced : Policy → Bytes → Bytes
replaced policy path = policy.to ++ drop (length policy.from) (clean path)

abbrev pub moves : Policy → Bytes → Bool
moves policy path =
    policy.enabled
    && (is_under policy.from (clean path) && ltb (length (replaced policy path)) path_max)

unfoldable pub translate : Policy → Bytes → Bytes
translate policy path = if moves policy path then replaced policy path else path

second_false : (a b c : Bool) → b ≡ false → (a && (b && c)) ≡ false
second_false a b c e = ground (arith, e)

third_false : (a b c : Bool) → c ≡ false → (a && (b && c)) ≡ false
third_false a b c e = ground (arith, e)

module _ (policy : Policy) (path : Bytes) where
  replaced-IsUnder :
      (u : IsUnder policy.from (clean path)) → replaced policy path ≡ policy.to ++ u.suffix
  replaced-IsUnder u =
      ap (λ (t : Bytes). policy.to ++ drop (length policy.from) t) u.splits
      ∙ ap (λ (t : Bytes). policy.to ++ t) (drop-append policy.from u.suffix)

  pub translate-Moved : (t : Bytes) → Moved policy path path_max t → translate policy path ≡ t
  unfolding translate
  translate-Moved t (on, m, short) =
      let e : replaced policy path ≡ t = replaced-IsUnder m.under ∙ sym m.moved in
      let fits : ltb (length (replaced policy path)) path_max ≡ true =
        rw e (ground (arith, short)) in
      rw (on, is_under-IsUnder policy.from (clean path) m.under, fits) e

  stays_false : (b : Bool) → b ≡ false → (if b then replaced policy path else path) ≡ path
  stays_false true e = absurd (ground (arith, e))
  stays_false false e = refl

  LeftAlone-moves :
      LeftAlone policy.enabled policy.from policy.to (clean path) path_max
      → moves policy path ≡ false
  LeftAlone-moves (disabled off) = rw off refl
  LeftAlone-moves (outside away) =
      second_false policy.enabled (is_under policy.from (clean path)) _
        (elim (Bool-cases (is_under policy.from (clean path))) [
          | inl e ↦ absurd (away (is_under_sound policy.from (clean path) e))
          | inr e ↦ e
        ])
  LeftAlone-moves (too_big u long) =
      third_false policy.enabled (is_under policy.from (clean path)) _
        (rw (replaced-IsUnder u) (ground (arith, long)))

  pub translate_stays : moves policy path ≡ false → translate policy path ≡ path
  unfolding translate
  translate_stays e = stays_false (moves policy path) e

  -- What becomes of the buffer, and of the path that is passed on.
  pub data Translates (o : Outcome Bytes) : Type 0 where
    refused : o ≡ refuse → translate policy path ≡ path → Translates o
    filled : (t : Bytes) → o ≡ ok t → translate policy path ≡ t → Translates o

  pub clean_and_substitute-Translates :
      IsMeasured policy
      → IsCString path
      → length path < path_max
      → Translates (clean_and_substitute policy path path_max)
  clean_and_substitute-Translates m text short =
      by_result (clean_and_substitute policy path path_max)
        (clean_and_substitute_lem policy m path_max path text)
    where
      left : Unmoved policy path path_max → moves policy path ≡ false
      left (too_long long) = absurd (omega (arith, long, short))
      left (left_alone h) = LeftAlone-moves h

      by_result :
          (o : Outcome Bytes)
          → Meets (Unmoved policy path path_max) (Moved policy path path_max) o
          → Translates o
      by_result fault h = absurd h
      by_result hang h = absurd h
      by_result refuse h = refused refl (translate_stays (left h))
      by_result (ok t) h = filled t refl (translate-Moved t h)
