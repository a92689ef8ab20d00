-- ===== src/Path/Clean/Round.antt =====
-- One round of the loop of `clean_path_into` does to the buffer what `resolve_name` does to the
-- names kept.
use ld_preload.Prelude.{
  ℕ, ◌+◌, ◌≤◌, ◌<◌, Bool, true, false, List, [], ◌∷◌, ◌++◌, append_assoc, ◌≡◌, refl, arith, leb,
  ◌∙◌, if◌then◌else◌, Bytes, length, length-append, All, Meets, Meets-bind, Meets-map, ok, ◌>>=◌,
  ◌>>◌, refuse_if, Bool-cases, inl, inr, ◌⊎◌,
}
use ld_preload.Path.Clean.{
  path_max, slash, Cleaner, out, put, put_separator, push_start, push_segment, pop_segment,
  clean_segment,
}
use ld_preload.Path.Normal.{IsName, Normal, base, closed, text, keep, resolve_name}
use ld_preload.Path.Clean.Text.{
  starts, Represents, length-starts, closed-last_byte, base-last_byte, take-text, base-ne-zero,
}

put_lem :
    (capacity : ℕ) (bytes : Bytes) (c : Cleaner)
    → length c.dst + length bytes ≤ capacity
    → put capacity bytes c ≡ ok (record c { dst = c.dst ++ bytes })
unfolding put
put_lem capacity bytes c h = ground arith

module _ (capacity dst_len : ℕ) (absolute : Bool) where
  put_separator_none :
      (ks : List Bytes) (c : Cleaner)
      → c.dst ≡ base absolute ks
      → put_separator capacity dst_len c ≡ ok c
  unfolding put_separator
  put_separator_none ks c e = ground (arith, base-last_byte absolute ks)

  put_separator_one :
      (k : Bytes) (ks : List Bytes) (c : Cleaner)
      → IsName k
      → dst_len ≤ capacity
      → c.dst ≡ closed absolute (k ∷ ks)
      → Meets
          (dst_len ≤ length (base absolute (k ∷ ks)))
          (λ d. (d.dst ≡ base absolute (k ∷ ks)) × (d.seg_starts ≡ c.seg_starts))
          (put_separator capacity dst_len c)
  unfolding put_separator
  put_separator_one k ks c name fits e = ground (
    arith,
    closed-last_byte absolute k ks name,
    put_lem capacity (slash ∷ []) c,
    append_assoc (base absolute ks) k (slash ∷ []),
    length-append (base absolute ks) (k ++ slash ∷ []),
    length-append (base absolute ks) k,
    length-append k (slash ∷ []),
  )

  put_separator_lem :
      (n : Normal) (c : Cleaner)
      → All IsName n.kept
      → dst_len ≤ capacity
      → c.dst ≡ text absolute n
      → Meets
          (dst_len ≤ length (base absolute n.kept))
          (λ d. (d.dst ≡ base absolute n.kept) × (d.seg_starts ≡ c.seg_starts))
          (put_separator capacity dst_len c)
  put_separator_lem n c h fits e = by_case n.kept n.popped h e
    where
      by_case :
          (ks : List Bytes) (popped : Bool)
          → All IsName ks
          → c.dst ≡ (if popped then base absolute ks else closed absolute ks)
          → Meets
              (dst_len ≤ length (base absolute ks))
              (λ d. (d.dst ≡ base absolute ks) × (d.seg_starts ≡ c.seg_starts))
              (put_separator capacity dst_len c)
      by_case ks true h e = rw (put_separator_none ks c e) (e, refl)
      by_case [] false h e = rw (put_separator_none [] c e) (e, refl)
      by_case (k ∷ ks) false h e = put_separator_one k ks c h.0 fits e

-- Why a segment may be refused: too many names, or too long a text.
abbrev pub NoRoom : ℕ → Bool → List Bytes → Bytes → Type 0
NoRoom dst_len absolute ks seg =
    (path_max ≤ length ks) ⊎ (dst_len ≤ length (base absolute ks) + length seg)

module _ (capacity dst_len : ℕ) (absolute : Bool) (fits : dst_len ≤ capacity) where
  push_rest :
      (n : Normal) (d : Cleaner) (seg : Bytes)
      → IsName seg
      → All IsName n.kept
      → d.dst ≡ base absolute n.kept
      → d.seg_starts ≡ starts absolute n.kept
      → length d.seg_starts < path_max
      → Meets (NoRoom dst_len absolute n.kept seg) (Represents absolute dst_len (keep seg n)) (
          push_start d >>= λ started.
          refuse_if (leb dst_len (out started + length seg)) >> put capacity seg started)
  unfolding push_start
  push_rest n d seg name kept e f free = ground (
    arith,
    name,
    kept,
    put_lem capacity seg (record d { seg_starts = length d.dst ∷ d.seg_starts }),
    length-append (base absolute n.kept) seg,
  )

  push_segment_lem :
      (n : Normal) (c : Cleaner) (seg : Bytes)
      → IsName seg
      → Represents absolute dst_len n c
      → Meets
          (NoRoom dst_len absolute n.kept seg)
          (Represents absolute dst_len (keep seg n))
          (push_segment capacity dst_len seg c)
  unfolding push_segment
  push_segment_lem n c seg name r = elim (Bool-cases (leb path_max (length c.seg_starts))) [
    | inl full ↦ rw full (ground (arith, r.starts_is, length-starts absolute n.kept))
    | inr free ↦ rw free (
        Meets-bind (NoRoom dst_len absolute n.kept seg)
          (λ d. (d.dst ≡ base absolute n.kept) × (d.seg_starts ≡ c.seg_starts))
          (Represents absolute dst_len (keep seg n)) (put_separator capacity dst_len c) _
          (Meets-map _ _ _ _ (put_separator capacity dst_len c)
            (put_separator_lem capacity dst_len absolute n c r.kept_names fits r.dst_is)
            (λ h. inr (omega arith)) (λ d h. h))
          (λ d h.
            push_rest n d seg name r.kept_names h.0 (h.1 ∙ r.starts_is) (ground (arith, h.1))))
  ]

  pop_segment_lem :
      (k : Bytes) (ks : List Bytes) (popped : Bool) (starts_of : List ℕ) (dst : Bytes)
      → starts_of ≡ starts absolute (k ∷ ks)
      → dst ≡ text absolute (record { kept = k ∷ ks; popped = popped })
      → pop_segment absolute capacity starts_of dst
        ≡ ok (record { dst = base absolute ks; seg_starts = starts absolute ks })
  unfolding pop_segment
  pop_segment_lem k ks popped starts_of dst e f =
      rw (e, f, (take-text absolute k ks popped).0) (ground (arith, base-ne-zero absolute ks))

-- A round keeps the buffer in step with the names kept.
module _ (capacity dst_len : ℕ) (absolute : Bool) (fits : dst_len ≤ capacity) where
  unpop :
      (k : Bytes) (ks : List Bytes) (popped : Bool) (c : Cleaner)
      → Represents absolute dst_len (record { kept = k ∷ ks; popped = popped }) c
      → Meets ⊥
          (Represents absolute dst_len (record { kept = ks; popped = true }))
          (pop_segment absolute capacity c.seg_starts c.dst)
  unpop k ks popped c r =
      rw
        (pop_segment_lem capacity dst_len absolute fits k ks popped c.seg_starts c.dst r.starts_is
          r.dst_is)
        (record {
          dst_is = refl;
          starts_is = refl;
          kept_names = r.kept_names.1;
          short = ground (arith, r.dst_is, (take-text absolute k ks popped).1);
        })

  clean_segment-cases :
      (ks : List Bytes) (popped : Bool) (c : Cleaner) (seg : Bytes)
      → IsName seg
      → Represents absolute dst_len (record { kept = ks; popped = popped }) c
      → Meets
          (NoRoom dst_len absolute ks seg)
          (Represents absolute dst_len
            (resolve_name absolute seg (record { kept = ks; popped = popped })))
          (clean_segment absolute capacity dst_len seg c)
  unfolding clean_segment resolve_name
  clean_segment-cases [] popped c seg name r = ground (
    arith,
    r,
    r.starts_is,
    push_segment_lem capacity dst_len absolute fits (record { kept = []; popped = popped }) c seg
        name r,
  )
  clean_segment-cases (k ∷ ks) popped c seg name r = ground (
    arith,
    r,
    r.starts_is,
    unpop k ks popped c r,
    push_segment_lem capacity dst_len absolute fits (record { kept = k ∷ ks; popped = popped }) c
        seg name r,
  )

  pub clean_segment_lem :
      (n : Normal) (c : Cleaner) (seg : Bytes)
      → IsName seg
      → Represents absolute dst_len n c
      → Meets
          (NoRoom dst_len absolute n.kept seg)
          (Represents absolute dst_len (resolve_name absolute seg n))
          (clean_segment absolute capacity dst_len seg c)
  clean_segment_lem n c seg name r = clean_segment-cases n.kept n.popped c seg name r
