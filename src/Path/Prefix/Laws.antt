-- ===== src/Path/Prefix/Laws.antt =====
-- What the prefix test accepts, and what the substitutions make of a path under the prefix.
use ld_preload.Prelude.{
  ℕ, ◌+◌, Bool, true, false, ◌&&◌, [], ◌∷◌, ◌++◌, some, ◌≡◌, ◌↔◌, refl, arith, ltb, ◌==◌,
  if◌then◌else◌, Bytes, IsCString, length, length-append, drop-append, Outcome, fault, ok, refuse,
  take_all,
}
use ld_preload.Path.Clean.{slash}
use ld_preload.Path.Prefix.{
  Policy, path_matches_prefix, substitute_prefix, substitute_prefix_reverse, copy_suffix,
}

-- A suffix that begins a new name, or nothing.
abbrev pub AtBoundary : Bytes → Type 0
AtBoundary [] = Unit
AtBoundary (c ∷ s) = c ≡ slash

-- `path` is the prefix, or stands below it in the tree.
pub record IsUnder (prefix path : Bytes) : Type 0 where
  pub suffix : Bytes
  pub splits : path ≡ prefix ++ suffix
  pub boundary : AtBoundary suffix

-- Whether a path stands under a prefix, byte by byte.
abbrev pub is_under : Bytes → Bytes → Bool
is_under [] [] = true
is_under [] (c ∷ s) = c == slash
is_under (a ∷ p) [] = false
is_under (a ∷ p) (b ∷ s) = b == a && is_under p s

pub matches_lem :
    (path prefix : Bytes)
    → IsCString path
    → path_matches_prefix (some path) prefix (length prefix) ≡ ok (is_under prefix path)
unfolding path_matches_prefix
matches_lem [] [] h = refl
matches_lem (c ∷ s) [] h = ground arith
matches_lem [] (a ∷ p) h = refl
matches_lem (c ∷ s) (a ∷ p) h = ground (arith, matches_lem s p h.1)

pub is_under_sound : (prefix path : Bytes) → is_under prefix path ≡ true → IsUnder prefix path
is_under_sound [] [] h = record { suffix = []; splits = refl; boundary = tt }
is_under_sound [] (c ∷ s) h = record { suffix = c ∷ s; splits = refl; boundary = ground arith }
is_under_sound (a ∷ p) [] h = cc
is_under_sound (a ∷ p) (b ∷ s) h =
    let u = is_under_sound p s (ground arith) in
    record { suffix = u.suffix; splits = ground (arith, u.splits); boundary = u.boundary }

pub is_under-append :
    (prefix suffix : Bytes) → AtBoundary suffix → is_under prefix (prefix ++ suffix) ≡ true
is_under-append [] [] h = refl
is_under-append [] (c ∷ s) h = ground arith
is_under-append (a ∷ p) s h = ground (arith, is_under-append p s h)

pub is_under-IsUnder : (prefix path : Bytes) → IsUnder prefix path → is_under prefix path ≡ true
is_under-IsUnder prefix path u = rw u.splits (is_under-append prefix u.suffix u.boundary)

pub All-suffix : (prefix suffix : Bytes) → IsCString (prefix ++ suffix) → IsCString suffix
All-suffix [] suffix h = h
All-suffix (a ∷ p) suffix h = All-suffix p suffix h.1

-- The prefix test reads inside its strings only, and says yes exactly for the prefix itself and
-- the paths below it: a longer name that begins alike is not accepted.
pub path_matches_prefix_iff :
    (path prefix : Bytes)
    → IsCString path
    → (b : Bool) × (path_matches_prefix (some path) prefix (length prefix) ≡ ok b)
      × ((b ≡ true) ↔ IsUnder prefix path)
path_matches_prefix_iff path prefix h = (
  is_under prefix path,
  matches_lem path prefix h,
  (is_under_sound prefix path, is_under-IsUnder prefix path),
)

-- A policy whose lengths are those of its strings.
pub record IsMeasured (p : Policy) : Type 0 where
  pub from_measured : p.from_len ≡ length p.from
  pub to_measured : p.to_len ≡ length p.to

-- What is done with a new text: it must fit `dst_len` bytes, and then the object.
abbrev pub copied : Bytes → ℕ → ℕ → Outcome Bytes
copied t capacity dst_len =
    if ltb dst_len (length t + 1)
    then refuse
    else if ltb capacity (length t + 1)
    then fault
    else ok t

pub copy_suffix_lem :
    (new old suffix : Bytes) (capacity dst_len : ℕ)
    → copy_suffix new (length new) (length old) (old ++ suffix) capacity dst_len
      ≡ copied (new ++ suffix) capacity dst_len
unfolding copy_suffix
copy_suffix_lem new old suffix capacity dst_len =
    rw (drop-append old suffix, take_all new) (ground (arith, length-append new suffix))

module _ (p : Policy) (m : IsMeasured p) (capacity dst_len : ℕ) where
  pub substitute_prefix_under :
      (suffix : Bytes)
      → p.enabled ≡ true
      → IsCString (p.from ++ suffix)
      → AtBoundary suffix
      → substitute_prefix p (some (p.from ++ suffix)) capacity dst_len
        ≡ copied (p.to ++ suffix) capacity dst_len
  unfolding substitute_prefix
  substitute_prefix_under suffix on h b =
      rw
        (
          on,
          m.from_measured,
          m.to_measured,
          matches_lem (p.from ++ suffix) p.from h,
          is_under-append p.from suffix b,
        )
        (copy_suffix_lem p.to p.from suffix capacity dst_len)

  pub substitute_prefix_reverse_under :
      (suffix : Bytes)
      → p.enabled ≡ true
      → IsCString (p.to ++ suffix)
      → AtBoundary suffix
      → substitute_prefix_reverse p (some (p.to ++ suffix)) capacity dst_len
        ≡ copied (p.from ++ suffix) capacity dst_len
  unfolding substitute_prefix_reverse
  substitute_prefix_reverse_under suffix on h b =
      rw
        (
          on,
          m.from_measured,
          m.to_measured,
          matches_lem (p.to ++ suffix) p.to h,
          is_under-append p.to suffix b,
        )
        (copy_suffix_lem p.from p.to suffix capacity dst_len)
