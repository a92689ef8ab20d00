-- ===== src/Path/Clean/Fuel.antt =====
-- The rounds of the loop of `clean_path_into`, for any path and any buffer.
use ld_preload.Prelude.{
  ℕ, zero, suc, ◌+◌, ◌-◌, ◌<◌, Bool, true, false, not, ◌&&◌, List, [], ◌∷◌, Option, none, some, ◌≡◌,
  ◌≢◌, refl, ap, arith, subst, ◌==◌, Bytes, length, get_or, ltb, leb, if◌then◌else◌, Outcome, fault,
  hang, refuse, ok, ◌>>=◌, refuse_if, access_if,
}
use ld_preload.Path.Clean.{
  path_max, slash, dot, Cleaner, out, put, is_dot, is_dot_dot, seg_count, is_absolute, pop_segment,
  put_separator, push_start, push_segment, clean_segment, skip_slashes, segment, after_segment,
  clean_loop, clean_start, clean_finish, clean_from, clean_path_into,
}
use ld_preload.Path.Clean.Scan.{
  skip_slashes-ne-slash, length-skip_slashes-le, length-after_segment-lt,
}

-- Not out of fuel.
abbrev Ends : {A : Type 0} → Outcome A → Type 0
Ends hang = ⊥
Ends _ = Unit

module _ {A B : Type 0} where
  Ends-bind : (m : Outcome A) (f : A → Outcome B) → Ends m → ((a : A) → Ends (f a)) → Ends (m >>= f)
  Ends-bind fault f h k = tt
  Ends-bind hang f h k = h
  Ends-bind refuse f h k = tt
  Ends-bind (ok a) f h k = k a

  bind_same : (m : Outcome A) (f g : A → Outcome B) → ((a : A) → f a ≡ g a) → (m >>= f) ≡ (m >>= g)
  bind_same m f g h = ap (λ k. m >>= k) (λ i a. h a i)

Ends-refuse_if : (b : Bool) → Ends (refuse_if b)
Ends-refuse_if true = tt
Ends-refuse_if false = tt

Ends-access_if : (b : Bool) → Ends (access_if b)
Ends-access_if true = tt
Ends-access_if false = tt

Ends-if : {A : Type 0} (b : Bool) (m n : Outcome A) → Ends m → Ends n → Ends (if b then m else n)
Ends-if true m n h k = h
Ends-if false m n h k = k

Ends-put : (capacity : ℕ) (bytes : Bytes) (c : Cleaner) → Ends (put capacity bytes c)
unfolding put
Ends-put capacity bytes c =
    Ends-bind (access_if (leb (out c + length bytes) capacity)) _ (Ends-access_if _) (λ _. tt)

Ends-pop_segment :
    (absolute : Bool) (capacity : ℕ) (starts : List ℕ) (dst : Bytes)
    → Ends (pop_segment absolute capacity starts dst)
unfolding pop_segment
Ends-pop_segment absolute capacity [] dst = tt
Ends-pop_segment absolute capacity (start ∷ starts) dst =
    Ends-if (start == 0 && absolute) _ _ (Ends-put _ _ _) tt

Ends-put_separator : (capacity dst_len : ℕ) (c : Cleaner) → Ends (put_separator capacity dst_len c)
unfolding put_separator
Ends-put_separator capacity dst_len c =
    Ends-if (not (out c == 0) && not (get_or c.dst (out c - 1) 0 == slash)) _ _
      (Ends-bind (refuse_if (leb dst_len (out c + 1))) _ (Ends-refuse_if _) (λ _. Ends-put _ _ _))
      tt

Ends-push_start : (c : Cleaner) → Ends (push_start c)
unfolding push_start
Ends-push_start c =
    Ends-bind (access_if (ltb (seg_count c) path_max)) _ (Ends-access_if _) (λ _. tt)

Ends-push_segment :
    (capacity dst_len : ℕ) (seg : Bytes) (c : Cleaner) → Ends (push_segment capacity dst_len seg c)
unfolding push_segment
Ends-push_segment capacity dst_len seg c =
    Ends-bind (refuse_if (leb path_max (seg_count c))) _ (Ends-refuse_if _) (λ _.
      Ends-bind (put_separator capacity dst_len c) _ (Ends-put_separator _ _ c) (λ separated.
        Ends-bind (push_start separated) _ (Ends-push_start separated) (λ started.
          Ends-bind (refuse_if (leb dst_len (out started + length seg))) _ (Ends-refuse_if _)
            (λ _. Ends-put _ _ _))))

Ends-clean_segment :
    (absolute : Bool) (capacity dst_len : ℕ) (seg : Bytes) (c : Cleaner)
    → Ends (clean_segment absolute capacity dst_len seg c)
unfolding clean_segment
Ends-clean_segment absolute capacity dst_len seg c = Ends-if (is_dot seg) _ _ tt (
    Ends-if (is_dot_dot seg && ltb 0 (seg_count c)) _ _ (Ends-pop_segment _ _ c.seg_starts c.dst)
      (Ends-if (is_dot_dot seg && absolute) _ _ tt (Ends-push_segment _ _ _ c)))

-- What a round leaves of a path is shorter.
shorter :
    (src : Bytes) (d : ℕ) (s : Bytes) (fuel : ℕ)
    → skip_slashes src ≡ d ∷ s
    → length src < suc fuel
    → length (after_segment (d ∷ s)) < fuel
shorter src d s fuel e h =
    let less = length-after_segment-lt d s (skip_slashes-ne-slash src e) in
    omega (arith, h, less, length-skip_slashes-le src, ap length e)

module _ (absolute : Bool) (capacity dst_len : ℕ) where
  Ends-clean_loop :
      (fuel : ℕ) (src : Bytes) (c : Cleaner)
      → length src < fuel
      → Ends (clean_loop fuel absolute capacity dst_len src c)
  unfolding clean_loop
  Ends-clean_loop zero src c h = absurd (omega (arith, h))
  Ends-clean_loop (suc fuel) src c h = by_rest (skip_slashes src) refl (Ends-clean_loop fuel)
    where
      by_rest :
          (rest : Bytes)
          → skip_slashes src ≡ rest
          → ((t : Bytes) (a : Cleaner)
              → length t < fuel
              → Ends (clean_loop fuel absolute capacity dst_len t a))
          → Ends (elim rest [
            | [] ↦ ok c
            | d ∷ s ↦
                (clean_segment absolute capacity dst_len (segment (d ∷ s)) c
                  >>= clean_loop fuel absolute capacity dst_len (after_segment (d ∷ s)))
          ])
      by_rest [] e again = tt
      by_rest (d ∷ s) e again =
          Ends-bind (clean_segment absolute capacity dst_len (segment (d ∷ s)) c) _
            (Ends-clean_segment absolute capacity dst_len (segment (d ∷ s)) c)
            (λ a. again (after_segment (d ∷ s)) a (shorter src d s fuel e h))

  clean_loop-same :
      (m n : ℕ) (src : Bytes) (c : Cleaner)
      → length src < m
      → length src < n
      → clean_loop m absolute capacity dst_len src c ≡ clean_loop n absolute capacity dst_len src c
  unfolding clean_loop
  clean_loop-same zero n src c h g = absurd (omega (arith, h))
  clean_loop-same (suc m) zero src c h g = absurd (omega (arith, g))
  clean_loop-same (suc m) (suc n) src c h g = by_rest (skip_slashes src) refl (clean_loop-same m n)
    where
      round : ℕ → Bytes → Outcome Cleaner
      round fuel rest = elim rest [
        | [] ↦ ok c
        | d ∷ s ↦
            (clean_segment absolute capacity dst_len (segment (d ∷ s)) c
              >>= clean_loop fuel absolute capacity dst_len (after_segment (d ∷ s)))
      ]

      by_rest :
          (rest : Bytes)
          → skip_slashes src ≡ rest
          → ((t : Bytes) (a : Cleaner)
              → length t < m
              → length t < n
              → clean_loop m absolute capacity dst_len t a
                ≡ clean_loop n absolute capacity dst_len t a)
          → round m rest ≡ round n rest
      by_rest [] e again = refl
      by_rest (d ∷ s) e again =
          bind_same (clean_segment absolute capacity dst_len (segment (d ∷ s)) c) _ _
            (λ a. again (after_segment (d ∷ s)) a (shorter src d s m e h) (shorter src d s n e g))

not_hang : {A : Type 0} (m : Outcome A) → Ends m → m ≢ hang
not_hang m h e = subst Ends e h

-- More rounds than the path has bytes are enough, for any buffer: the loop does not run out of
-- them, and it ends as with the number of rounds that `clean_path_into` gives it.
pub clean_loop_ends :
    (absolute : Bool) (capacity dst_len fuel : ℕ) (src : Bytes) (c : Cleaner)
    → length src < fuel
    → (clean_loop fuel absolute capacity dst_len src c ≢ hang)
      × (clean_loop fuel absolute capacity dst_len src c
          ≡ clean_loop (suc (length src)) absolute capacity dst_len src c)
clean_loop_ends absolute capacity dst_len fuel src c h = (
  not_hang _ (Ends-clean_loop absolute capacity dst_len fuel src c h),
  clean_loop-same absolute capacity dst_len fuel (suc (length src)) src c h (omega arith),
)

Ends-clean_from : (capacity dst_len : ℕ) (src : Bytes) → Ends (clean_from capacity dst_len src)
unfolding clean_from clean_start clean_finish
Ends-clean_from capacity dst_len src =
    Ends-bind (clean_start (is_absolute src) capacity dst_len) _
      (Ends-if (is_absolute src) _ _
        (Ends-bind (refuse_if (ltb dst_len 2)) _ (Ends-refuse_if _) (λ _. Ends-put _ _ _)) tt)
      (λ started.
        Ends-bind (clean_loop (suc (length src)) (is_absolute src) capacity dst_len src started) _
          (Ends-clean_loop _ _ _ _ src started (omega arith))
          (λ cleaned. finishes (is_absolute src) cleaned))
  where
    finishes : (absolute : Bool) (c : Cleaner) → Ends (clean_finish absolute capacity dst_len c)
    finishes absolute c =
        Ends-bind
          (if out c == 0
            then (refuse_if (ltb dst_len 2) >>= λ _.
                put capacity ((if absolute then slash else dot) ∷ []) c)
            else ok c)
          _
          (Ends-if (out c == 0) _ _
            (Ends-bind (refuse_if (ltb dst_len 2)) _ (Ends-refuse_if _) (λ _. Ends-put _ _ _)) tt)
          (λ filled.
            Ends-bind (access_if (ltb (out filled) capacity)) _ (Ends-access_if _) (λ _. tt))

Ends-clean_path_into :
    (src : Option Bytes) (dst : Option ℕ) (dst_len : ℕ) → Ends (clean_path_into src dst dst_len)
unfolding clean_path_into
Ends-clean_path_into none dst dst_len = tt
Ends-clean_path_into (some src) none dst_len = tt
Ends-clean_path_into (some src) (some capacity) dst_len =
    Ends-bind (refuse_if (dst_len == 0)) _ (Ends-refuse_if _)
      (λ _. Ends-clean_from capacity dst_len src)

-- `clean_path_into` comes to an end, whatever its path, its buffer and the size it is told.
pub clean_path_into_ends :
    (src : Option Bytes) (dst : Option ℕ) (dst_len : ℕ) → clean_path_into src dst dst_len ≢ hang
clean_path_into_ends src dst dst_len = not_hang _ (Ends-clean_path_into src dst dst_len)
