-- ===== src/Path/Clean/Refine.antt =====
-- `clean_path_into` and the text of the names that the path comes down to.
use ld_preload.Prelude.{
  some, inl, inr, Bool-cases, ◌==◌, ℕ, suc, ◌≤◌, ◌<◌, Bool, List, [], ◌∷◌, ◌≡◌, ◌≢◌, arith, Bytes,
  length, Meets, Meets-bind, inl,
}
use ld_preload.Path.Clean.{
  Cleaner, put, is_absolute, clean_loop, clean_start, clean_finish, clean_from, clean_path_into,
}
use ld_preload.Path.Normal.{Normal, text, names, resolve, nothing_kept, normalise, clean, or_dot}
use ld_preload.Path.Clean.Text.{Represents, text-ne-nil}
use ld_preload.Path.Clean.Loop.{TooLong, clean_loop_lem, Room-at_start}

-- From the start to the NUL, in a buffer that is not empty.
module _ (capacity dst_len : ℕ) (fits : dst_len ≤ capacity) (src : Bytes) where
  abbrev IsClean : Bytes → Type 0
  IsClean t = (t ≡ clean src) × (length t < dst_len)

  clean_start_lem :
      (absolute : Bool)
      → dst_len ≢ 0
      → Meets
          (TooLong dst_len (length src))
          (Represents absolute dst_len nothing_kept)
          (clean_start absolute capacity dst_len)
  unfolding clean_start put
  clean_start_lem absolute h = ground arith

  clean_finish-cases :
      (absolute : Bool) (n : Normal) (dst : Bytes) (starts : List ℕ)
      → dst ≡ text absolute n
      → length dst < dst_len
      → Meets
          (TooLong dst_len (length src))
          (λ t. (t ≡ or_dot (text absolute n)) × (length t < dst_len))
          (clean_finish absolute capacity dst_len (record { dst = dst; seg_starts = starts }))
  unfolding clean_finish put
  clean_finish-cases absolute n [] starts e short =
      rw (← e) (ground (arith, text-ne-nil absolute n, e))
  clean_finish-cases absolute n (b ∷ s) starts e short = rw (← e) (ground arith)

  clean_finish_lem :
      (absolute : Bool) (n : Normal) (c : Cleaner)
      → Represents absolute dst_len n c
      → Meets
          (TooLong dst_len (length src))
          (λ t. (t ≡ or_dot (text absolute n)) × (length t < dst_len))
          (clean_finish absolute capacity dst_len c)
  clean_finish_lem absolute n c r =
      clean_finish-cases absolute n c.dst c.seg_starts r.dst_is r.short

  clean_from_lem :
      dst_len ≢ 0 → Meets (TooLong dst_len (length src)) IsClean (clean_from capacity dst_len src)
  unfolding clean_from clean normalise
  clean_from_lem h =
      let a = is_absolute src in
      Meets-bind _ (Represents a dst_len nothing_kept) _ (clean_start a capacity dst_len) _
        (clean_start_lem a h)
        (λ c r.
          Meets-bind _ (Represents a dst_len (resolve a (names src) nothing_kept)) _
            (clean_loop (suc (length src)) a capacity dst_len src c) _
            (clean_loop_lem capacity dst_len a fits (length src) (suc (length src)) src
              (omega arith) nothing_kept c r (Room-at_start src))
            (λ d q. clean_finish_lem a (resolve a (names src) nothing_kept) d q))

-- For every source string, and a buffer of at least `dst_len` bytes, `clean_path_into` comes to an
-- end with no access outside an object. It refuses only a path that is as long as the buffer or as
-- PATH_MAX, or a buffer below two bytes; otherwise it writes the clean text, which with its NUL
-- fits `dst_len` bytes.
pub clean_path_into-clean :
    (src : Bytes) (capacity dst_len : ℕ)
    → dst_len ≤ capacity
    → Meets
        (TooLong dst_len (length src))
        (λ t. (t ≡ clean src) × (length t < dst_len))
        (clean_path_into (some src) (some capacity) dst_len)
unfolding clean_path_into
clean_path_into-clean src capacity dst_len fits = elim (Bool-cases (dst_len == 0)) [
  | inl e ↦ rw e (inr (inr (ground arith)))
  | inr e ↦ rw e (clean_from_lem capacity dst_len fits src (ground arith))
]
