-- ===== src/Path/Clean/Result.antt =====
-- What `clean_path_into` makes of an absolute path.
use ld_preload.Prelude.{
  ℕ, ◌≤◌, ◌<◌, true, ◌++◌, ◌∷◌, [], some, ◌≡◌, ◌⊎◌, ◌∙◌, subst, sym, arith, Bytes, codes, length,
  Meets, Meets-map,
}
use ld_preload.Path.Clean.{path_max, slash, is_absolute, clean_path_into}
use ld_preload.Path.Clean.Loop.{TooLong}
use ld_preload.Path.Clean.Refine.{clean_path_into-clean}
use ld_preload.Path.Normal.{base, clean, normalise}
use ld_preload.Path.Normal.Laws.{
  IsProper, IsTidy, clean-IsTidy, clean-IsProper, clean-clean, clean_trailing_slash,
}

module _ (src : Bytes) (capacity dst_len : ℕ) (fits : dst_len ≤ capacity)
    (h : is_absolute src ≡ true) where
  -- For an absolute path and a buffer of at least `dst_len` bytes, `clean_path_into` refuses by a
  -- length only, or writes an absolute path that is made of names none of which is empty, `.` or
  -- `..` or has a slash in it, with one slash in front of each and at most one behind the last.
  pub clean_path_into-IsTidy :
      Meets
        (TooLong dst_len (length src))
        IsTidy
        (clean_path_into (some src) (some capacity) dst_len)
  clean_path_into-IsTidy =
      Meets-map _ _ _ _ (clean_path_into (some src) (some capacity) dst_len)
        (clean_path_into-clean src capacity dst_len fits) (λ e. e)
        (λ t m. subst IsTidy (sym m.0) (clean-IsTidy src h))

  absolute_long : (t : Bytes) → is_absolute t ≡ true → 0 < length t
  absolute_long [] e = absurd (ground (arith, e))
  absolute_long (c ∷ t) e = omega arith

  clean_again :
      dst_len ≤ path_max
      → (t : Bytes) → t ≡ clean src
      → length t < dst_len
      → Meets ⊥
          (λ u. (t ≡ u) ⊎ (t ≡ u ++ slash ∷ []))
          (clean_path_into (some t) (some capacity) dst_len)
  clean_again small t e short =
      Meets-map _ _ _ _ (clean_path_into (some t) (some capacity) dst_len)
        (clean_path_into-clean t capacity dst_len fits)
        (λ long. ground (arith, long, short, small, absolute_long t absolute)) (λ u m. again u m.0)
    where
      absolute : is_absolute t ≡ true
      absolute = rw e ((clean-IsProper src h).0)

      again : (u : Bytes) → u ≡ clean t → (t ≡ u) ⊎ (t ≡ u ++ slash ∷ [])
      again u m = rw (m, e) (clean-clean src h)

  -- With `dst_len` at most PATH_MAX, a text that `clean_path_into` wrote for an absolute path is
  -- not refused when it is cleaned again, and stays as it is, but for one slash at its end.
  pub clean_path_into_again :
      dst_len ≤ path_max
      → Meets
          (TooLong dst_len (length src))
          (λ t.
            Meets ⊥
              (λ u. (t ≡ u) ⊎ (t ≡ u ++ slash ∷ []))
              (clean_path_into (some t) (some capacity) dst_len))
          (clean_path_into (some src) (some capacity) dst_len)
  clean_path_into_again small =
      Meets-map _ _ _ _ (clean_path_into (some src) (some capacity) dst_len)
        (clean_path_into-clean src capacity dst_len fits) (λ e. e)
        (λ t m. clean_again small t m.0 m.1)

  -- An absolute path with `/x/..` behind it, for a proper name x, is refused by a length only, or
  -- becomes the text of the path's own names, each with a slash behind it, the last one too.
  pub clean_path_into_trailing_slash :
      (x : Bytes)
      → IsProper x
      → Meets
          (TooLong dst_len (length (src ++ slash ∷ (x ++ codes "/.."))))
          (λ t. t ≡ base true (normalise src).kept)
          (clean_path_into (some (src ++ slash ∷ (x ++ codes "/.."))) (some capacity) dst_len)
  clean_path_into_trailing_slash x k =
      let up = src ++ slash ∷ (x ++ codes "/..") in
      Meets-map _ _ _ _ (clean_path_into (some up) (some capacity) dst_len)
        (clean_path_into-clean up capacity dst_len fits) (λ e. e)
        (λ t m. m.0 ∙ clean_trailing_slash src x h k)
