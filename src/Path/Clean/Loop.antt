-- ===== src/Path/Clean/Loop.antt =====
-- The loop of `clean_path_into` keeps the buffer in step with the names kept, to its end.
use ld_preload.Prelude.{
  ℕ, zero, suc, ◌+◌, ◌≤◌, ◌<◌, Bool, List, [], ◌∷◌, ◌++◌, ◌≡◌, ◌≢◌, refl, arith, Bytes, length,
  length-append, Meets, Meets-bind, Meets-map, ok, ◌>>=◌, inl, ◌⊎◌,
}
use ld_preload.Path.Clean.{
  path_max, slash, Cleaner, is_absolute, clean_segment, skip_slashes, segment, after_segment,
  clean_loop,
}
use ld_preload.Path.Normal.{Normal, base, names, resolve, resolve_name, nothing_kept}
use ld_preload.Path.Clean.Scan.{
  names-skip_slashes, skip_slashes-ne-slash, length-skip_slashes-le, length-segment,
  skip-after_segment, segment-IsName, names-segment, length-after_segment-lt,
}
use ld_preload.Path.Clean.Text.{Represents}
use ld_preload.Path.Clean.Round.{NoRoom, clean_segment_lem}

-- A path of `n` bytes does not fit the arrays of the code, or may not.
abbrev pub TooLong : ℕ → ℕ → Type 0
TooLong dst_len n = (path_max ≤ n) ⊎ (dst_len ≤ n) ⊎ (dst_len < 2)

module _ (absolute : Bool) where
  length-kept-le : (ks : List Bytes) → length ks ≤ length (base absolute ks)
  length-kept-le [] = omega arith
  length-kept-le (k ∷ ks) = omega (
    arith,
    length-kept-le ks,
    length-append (base absolute ks) (k ++ slash ∷ []),
    length-append k (slash ∷ []),
  )

  resolve_name-grows-cases :
      (ks : List Bytes) (popped : Bool) (seg : Bytes)
      → length
          (base absolute (resolve_name absolute seg (record { kept = ks; popped = popped })).kept)
        ≤ length (base absolute ks) + length seg + 1
  unfolding resolve_name
  resolve_name-grows-cases [] popped seg =
      ground (
        arith,
        length-append (base absolute []) (seg ++ slash ∷ []),
        length-append seg (slash ∷ []),
      )
  resolve_name-grows-cases (k ∷ ks) popped seg = ground (
    arith,
    length-append (base absolute (k ∷ ks)) (seg ++ slash ∷ []),
    length-append (base absolute ks) (k ++ slash ∷ []),
    length-append seg (slash ∷ []),
  )

  resolve_name-grows :
      (n : Normal) (seg : Bytes)
      → length (base absolute (resolve_name absolute seg n).kept)
        ≤ length (base absolute n.kept) + length seg + 1
  resolve_name-grows n seg = resolve_name-grows-cases n.kept n.popped seg

-- Where a round begins, there is an end to the names, or room for what is left.
abbrev pub Room : Bool → ℕ → Normal → Bytes → Type 0
Room absolute total n src =
    (skip_slashes src ≡ []) ⊎ (length (base absolute n.kept) + length (skip_slashes src) ≤ total)

module _ (capacity dst_len : ℕ) (absolute : Bool) (fits : dst_len ≤ capacity) (total : ℕ) where
  excuse :
      (n : Normal) (d : ℕ) (s : Bytes)
      → length (base absolute n.kept) + length (d ∷ s) ≤ total
      → NoRoom dst_len absolute n.kept (segment (d ∷ s))
      → TooLong dst_len total
  excuse n d s room e = ground (arith, length-kept-le absolute n.kept, length-segment (d ∷ s))

  keep-Room :
      (n : Normal) (d : ℕ) (s : Bytes)
      → length (base absolute n.kept) + length (d ∷ s) ≤ total
      → Room absolute total (resolve_name absolute (segment (d ∷ s)) n) (after_segment (d ∷ s))
  keep-Room n d s room = ground (
    arith,
    resolve_name-grows absolute n (segment (d ∷ s)),
    length-segment (d ∷ s),
    skip-after_segment (d ∷ s),
  )

  -- What the loop is to do with `src`, whatever came before it.
  abbrev pub LoopGoal : ℕ → Bytes → Type 0
  LoopGoal fuel src =
      (n : Normal) (c : Cleaner)
      → Represents absolute dst_len n c
      → Room absolute total n src
      → Meets (TooLong dst_len total) (Represents absolute dst_len (resolve absolute (names src) n))
          (clean_loop fuel absolute capacity dst_len src c)

  clean_round :
      (fuel d : ℕ) (s : Bytes) (n : Normal) (c : Cleaner)
      → d ≢ slash
      → LoopGoal fuel (after_segment (d ∷ s))
      → Represents absolute dst_len n c
      → length (base absolute n.kept) + length (d ∷ s) ≤ total
      → Meets
          (TooLong dst_len total)
          (Represents absolute dst_len (resolve absolute (names (d ∷ s)) n))
          (clean_segment absolute capacity dst_len (segment (d ∷ s)) c
            >>= clean_loop fuel absolute capacity dst_len (after_segment (d ∷ s)))
  unfolding resolve
  clean_round fuel d s n c h ih r room =
      let seg = segment (d ∷ s) in
      rw (names-segment d s h) (
        Meets-bind _ (Represents absolute dst_len (resolve_name absolute seg n)) _
          (clean_segment absolute capacity dst_len seg c) _
          (Meets-map _ _ _ _ (clean_segment absolute capacity dst_len seg c)
            (clean_segment_lem capacity dst_len absolute fits n c seg (segment-IsName d s h) r)
            (excuse n d s room) (λ _ p. p))
          (λ c' r'. ih (resolve_name absolute seg n) c' r' (keep-Room n d s room)))

  pub clean_loop_lem : (fuel : ℕ) (src : Bytes) → length src < fuel → LoopGoal fuel src
  unfolding clean_loop
  clean_loop_lem zero src h n c r room = elim h [ ]
  clean_loop_lem (suc fuel) src h n c r room =
      rw (← names-skip_slashes src) (round (skip_slashes src) refl (clean_loop_lem fuel))
    where
      round :
          (rest : Bytes)
          → skip_slashes src ≡ rest
          → ((s : Bytes) → length s < fuel → LoopGoal fuel s)
          → Meets
              (TooLong dst_len total)
              (Represents absolute dst_len (resolve absolute (names rest) n))
              (elim rest [
                | [] ↦ ok c
                | d ∷ s ↦
                    (clean_segment absolute capacity dst_len (segment (d ∷ s)) c
                      >>= clean_loop fuel absolute capacity dst_len (after_segment (d ∷ s)))
              ])
      round [] e ih = unfold names resolve in r
      round (d ∷ s) e ih =
          let h' = skip_slashes-ne-slash src e in
          clean_round fuel d s n c h'
            (ih (after_segment (d ∷ s))
              (ground (arith, e, length-skip_slashes-le src, length-after_segment-lt d s h')))
            r (ground (arith, e, room))

pub Room-at_start : (src : Bytes) → Room (is_absolute src) (length src) nothing_kept src
unfolding skip_slashes
Room-at_start [] = inl refl
Room-at_start (c ∷ s) = ground (arith, length-skip_slashes-le s)
