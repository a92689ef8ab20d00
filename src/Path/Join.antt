-- ===== src/Path/Join.antt =====
-- rtld_linux.c, `join_and_clean_path`.
use ld_preload.Prelude.{
  ℕ, ◌+◌, ◌≤◌, ◌<◌, ◌∷◌, ◌++◌, Option, some, ◌≡◌, inl, inr, arith, leb, Bool-cases, Bytes, length,
  length-append, Outcome, refuse, ◌>>◌, refuse_if, Meets, Meets-map,
}
use ld_preload.Path.Clean.{path_max, slash, clean_path_into}
use ld_preload.Path.Clean.Loop.{TooLong}
use ld_preload.Path.Clean.Refine.{clean_path_into-clean}
use ld_preload.Path.Normal.{clean}

-- `snprintf(joined, sizeof(joined), "%s/%s", base, path)` tells the length of the whole text.
unfoldable pub join_and_clean_path : Option Bytes → Option Bytes → Option ℕ → ℕ → Outcome Bytes
join_and_clean_path (some base) (some path) (some capacity) dst_len = do
  let joined = base ++ slash ∷ path
  refuse_if (leb path_max (length joined))
  clean_path_into (some joined) (some capacity) dst_len
join_and_clean_path _ _ _ dst_len = refuse

-- In a buffer of at least `dst_len` bytes, `join_and_clean_path` comes to an end with no access
-- outside an object, and yields the clean text of `base/path` unless that path is as long as
-- PATH_MAX or the buffer.
pub join_and_clean_path-clean :
    (base path : Bytes) (capacity dst_len : ℕ)
    → dst_len ≤ capacity
    → Meets
        (TooLong dst_len (length base + 1 + length path))
        (λ t. (t ≡ clean (base ++ slash ∷ path)) × (length t < dst_len))
        (join_and_clean_path (some base) (some path) (some capacity) dst_len)
unfolding join_and_clean_path
join_and_clean_path-clean base path capacity dst_len fits =
    let joined = base ++ slash ∷ path in
    elim (Bool-cases (leb path_max (length joined))) [
      | inl e ↦ rw e (inl (ground (arith, length-append base (slash ∷ path))))
      | inr e ↦ rw e (
          Meets-map _ _ _ _ (clean_path_into (some joined) (some capacity) dst_len)
            (clean_path_into-clean joined capacity dst_len fits)
            (λ h. ground (arith, length-append base (slash ∷ path))) (λ t h. h))
    ]
