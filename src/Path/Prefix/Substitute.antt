-- ===== src/Path/Prefix/Substitute.antt =====
-- Both directions of the substitution, on every branch.
use ld_preload.Prelude.{
  ℕ, ◌+◌, ◌≤◌, ◌<◌, Bool, true, false, ◌++◌, some, ◌≡◌, inl, inr, refl, sym, ◌∙◌, arith, ap, ltb,
  Bool-cases, Bytes, IsCString, All-append, length, ok, refuse, Meets, subst,
}
use ld_preload.Path.Prefix.{Policy, substitute_prefix, substitute_prefix_reverse}
use ld_preload.Path.Prefix.Laws.{
  IsUnder, IsMeasured, is_under, matches_lem, is_under_sound, is_under-IsUnder, All-suffix, copied,
  substitute_prefix_under, substitute_prefix_reverse_under,
}

-- `t` is `path` with the prefix `old` replaced by `new`.
pub record Moves (old new path t : Bytes) : Type 0 where
  pub under : IsUnder old path
  pub moved : t ≡ new ++ under.suffix

-- Why a path is left alone.
pub data LeftAlone (on : Bool) (old new path : Bytes) (dst_len : ℕ) : Type 0 where
  disabled : on ≡ false → LeftAlone on old new path dst_len
  outside : ¬ IsUnder old path → LeftAlone on old new path dst_len
  too_big :
      (u : IsUnder old path)
      → dst_len ≤ length (new ++ u.suffix)
      → LeftAlone on old new path dst_len

copied_lem :
    (p : Policy) (path : Bytes) (u : IsUnder p.from path) (capacity dst_len : ℕ)
    → dst_len ≤ capacity
    → p.enabled ≡ true
    → Meets
        (LeftAlone p.enabled p.from p.to path dst_len)
        (λ t. (p.enabled ≡ true) × Moves p.from p.to path t × (length t < dst_len))
        (copied (p.to ++ u.suffix) capacity dst_len)
copied_lem p path u capacity dst_len fits on =
    elim (Bool-cases (ltb dst_len (length (p.to ++ u.suffix) + 1))) [
      | inl e ↦ rw e (too_big u (ground arith))
      | inr e ↦ rw (e, fits_too e) (on, record { under = u; moved = refl }, ground arith)
    ]
  where
    fits_too :
        ltb dst_len (length (p.to ++ u.suffix) + 1) ≡ false
        → ltb capacity (length (p.to ++ u.suffix) + 1) ≡ false
    fits_too e = ground arith

module _ (p : Policy) (path : Bytes) (capacity dst_len : ℕ) where
  substitute_prefix_off :
      p.enabled ≡ false → substitute_prefix p (some path) capacity dst_len ≡ refuse
  unfolding substitute_prefix
  substitute_prefix_off off = rw off

  substitute_prefix_outside :
      IsMeasured p
      → IsCString path
      → is_under p.from path ≡ false
      → substitute_prefix p (some path) capacity dst_len ≡ refuse
  unfolding substitute_prefix
  substitute_prefix_outside m h e = elim (Bool-cases p.enabled) [
    | inl on ↦ rw (on, m.from_measured, matches_lem path p.from h, e)
    | inr off ↦ rw off
  ]

  pub substitute_prefix-IsUnder :
      IsMeasured p
      → IsCString path
      → p.enabled ≡ true
      → (u : IsUnder p.from path)
      → substitute_prefix p (some path) capacity dst_len
        ≡ copied (p.to ++ u.suffix) capacity dst_len
  substitute_prefix-IsUnder m h on u =
      ap (λ (x : Bytes). substitute_prefix p (some x) capacity dst_len) u.splits
      ∙ substitute_prefix_under p m capacity dst_len u.suffix on (subst IsCString u.splits h)
          u.boundary

  pub substitute_prefix_reverse-IsUnder :
      IsMeasured p
      → IsCString path
      → p.enabled ≡ true
      → (u : IsUnder p.to path)
      → substitute_prefix_reverse p (some path) capacity dst_len
        ≡ copied (p.from ++ u.suffix) capacity dst_len
  substitute_prefix_reverse-IsUnder m h on u =
      ap (λ (x : Bytes). substitute_prefix_reverse p (some x) capacity dst_len) u.splits
      ∙ substitute_prefix_reverse_under p m capacity dst_len u.suffix on
          (subst IsCString u.splits h) u.boundary

-- In a buffer of at least `dst_len` bytes, `substitute_prefix` makes no access outside an object.
-- It yields a text exactly as described: the policy is enabled, the path is `from` or below it,
-- and the text has `to` in the place of `from` and fits; it refuses only if rewriting is disabled,
-- the path is not under `from`, or the new text does not fit.
pub substitute_prefix-Moves :
    (p : Policy) (path : Bytes) (capacity dst_len : ℕ)
    → IsMeasured p
    → IsCString path
    → dst_len ≤ capacity
    → Meets
        (LeftAlone p.enabled p.from p.to path dst_len)
        (λ t. (p.enabled ≡ true) × Moves p.from p.to path t × (length t < dst_len))
        (substitute_prefix p (some path) capacity dst_len)
substitute_prefix-Moves p path capacity dst_len m h fits = elim (Bool-cases p.enabled) [
  | inl on ↦ elim (Bool-cases (is_under p.from path)) [
    | inl e ↦
        let u = is_under_sound p.from path e in
        rw (substitute_prefix-IsUnder p path capacity dst_len m h on u)
          (copied_lem p path u capacity dst_len fits on)
    | inr e ↦
        rw (substitute_prefix_outside p path capacity dst_len m h e)
          (outside (λ u. cc (is_under-IsUnder p.from path u)))
  ]
  | inr off ↦ rw (substitute_prefix_off p path capacity dst_len off) (disabled off)
]

copied_fits :
    (t : Bytes) (capacity dst_len : ℕ)
    → length t < dst_len
    → dst_len ≤ capacity
    → copied t capacity dst_len ≡ ok t
copied_fits t capacity dst_len short fits = ground arith

pub reverse-Moves :
    (p : Policy) (path t : Bytes) (capacity dst_len : ℕ)
    → IsMeasured p
    → IsCString path
    → IsCString p.to
    → length path < dst_len
    → dst_len ≤ capacity
    → p.enabled ≡ true
    → Moves p.from p.to path t
    → substitute_prefix_reverse p (some t) capacity dst_len ≡ ok path
reverse-Moves p path t capacity dst_len m h k short fits on moves =
    let u = moves.under in
    let c =
      All-append _ p.to u.suffix k (All-suffix p.from u.suffix (subst IsCString u.splits h)) in
    rw moves.moved (
      substitute_prefix_reverse_under p m capacity dst_len u.suffix on c u.boundary
      ∙ ap (λ (x : Bytes). copied x capacity dst_len) (sym u.splits)
      ∙ copied_fits path capacity dst_len short fits)

-- The way back: a substituted path under an enabled policy, given to `substitute_prefix_reverse`
-- with buffers that hold the old path, yields the old path again.
pub substitute_prefix_reverse-substitute_prefix :
    (p : Policy) (path t : Bytes) (capacity dst_len capacity' dst_len' : ℕ)
    → IsMeasured p
    → IsCString path
    → IsCString p.to
    → dst_len ≤ capacity
    → length path < dst_len'
    → dst_len' ≤ capacity'
    → substitute_prefix p (some path) capacity dst_len ≡ ok t
    → substitute_prefix_reverse p (some t) capacity' dst_len' ≡ ok path
substitute_prefix_reverse-substitute_prefix p path t capacity dst_len capacity' dst_len' m h k fits
      short fits' e =
    let (on, moves, _) = rw e at (substitute_prefix-Moves p path capacity dst_len m h fits) in
    reverse-Moves p path t capacity' dst_len' m h k short fits' on moves
