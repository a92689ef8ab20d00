-- ===== src/Path/Clean/Scan.antt =====
-- The scanning loops of `clean_path_into` read off the names of the path.
use ld_preload.Prelude.{
  ℕ, ◌+◌, ◌≤◌, ◌<◌, [], ◌∷◌, ◌≡◌, ◌≢◌, ◌⊎◌, inl, refl, arith, Bytes, length, All,
}
use ld_preload.Path.Clean.{slash, skip_slashes, segment, after_segment}
use ld_preload.Path.Normal.{names, IsName}

pub names-skip_slashes : (s : Bytes) → names (skip_slashes s) ≡ names s
unfolding names skip_slashes
names-skip_slashes [] = refl
names-skip_slashes (c ∷ s) = ground (arith, names-skip_slashes s)

pub skip_slashes-ne-slash : (s : Bytes) {d : ℕ} {t : Bytes} → skip_slashes s ≡ d ∷ t → d ≢ slash
unfolding skip_slashes
skip_slashes-ne-slash [] h = cc
skip_slashes-ne-slash (c ∷ s) {d} {t} h = ground (arith, skip_slashes-ne-slash s {d = d} {t = t})

pub length-skip_slashes-le : (s : Bytes) → length (skip_slashes s) ≤ length s
unfolding skip_slashes
length-skip_slashes-le [] = omega arith
length-skip_slashes-le (c ∷ s) = ground (arith, length-skip_slashes-le s)

pub length-segment : (s : Bytes) → length (segment s) + length (after_segment s) ≡ length s
unfolding segment after_segment
length-segment [] = omega arith
length-segment (c ∷ s) = ground (arith, length-segment s)

-- Behind a segment stands the end or a slash.
pub skip-after_segment :
    (s : Bytes)
    → (skip_slashes (after_segment s) ≡ [])
      ⊎ (length (skip_slashes (after_segment s)) < length (after_segment s))
unfolding skip_slashes after_segment
skip-after_segment [] = inl refl
skip-after_segment (c ∷ s) = ground (arith, skip-after_segment s, length-skip_slashes-le s)

pub segment-no_slash : (s : Bytes) → All (λ c. c ≢ slash) (segment s)
unfolding segment
segment-no_slash [] = tt
segment-no_slash (c ∷ s) = ground (arith, segment-no_slash s)

pub segment-IsName : (d : ℕ) (s : Bytes) → d ≢ slash → IsName (segment (d ∷ s))
segment-IsName d s h = record {
  ne_nil = unfold segment in ground arith;
  no_slash = segment-no_slash (d ∷ s);
}

pub names-segment :
    (d : ℕ) (s : Bytes)
    → d ≢ slash
    → names (d ∷ s) ≡ segment (d ∷ s) ∷ names (after_segment (d ∷ s))
unfolding names segment after_segment
names-segment d [] h = ground arith
names-segment d (c ∷ s) h = ground (arith, names-segment c s)

pub length-after_segment-lt :
    (d : ℕ) (s : Bytes) → d ≢ slash → length (after_segment (d ∷ s)) < length (d ∷ s)
unfolding after_segment
length-after_segment-lt d s h = ground (arith, length-segment s)
