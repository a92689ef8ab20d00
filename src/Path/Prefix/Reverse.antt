-- ===== src/Path/Prefix/Reverse.antt =====
-- `substitute_prefix_reverse` is `substitute_prefix` with the prefixes exchanged.
use ld_preload.Prelude.{
  ℕ, ◌≤◌, ◌<◌, true, ◌++◌, some, none, ◌≡◌, refl, ◌∙◌, arith, Bytes, IsCString, length, fault,
  Meets, Option,
}
use ld_preload.Path.Prefix.{Policy, substitute_prefix, substitute_prefix_reverse}
use ld_preload.Path.Prefix.Laws.{IsUnder, IsMeasured}
use ld_preload.Path.Prefix.Substitute.{
  Moves, LeftAlone, substitute_prefix-Moves, substitute_prefix_reverse-IsUnder,
}

abbrev pub exchange : Policy → Policy
exchange p = record {
  enabled = p.enabled;
  from_len = p.to_len;
  to_len = p.from_len;
  from = p.to;
  to = p.from;
}

reverse_exchange :
    (p : Policy) (path : Option Bytes) (capacity dst_len : ℕ)
    → substitute_prefix_reverse p path capacity dst_len
      ≡ substitute_prefix (exchange p) path capacity dst_len
unfolding substitute_prefix substitute_prefix_reverse
reverse_exchange p path capacity dst_len = refl

pub substitute_prefix_reverse-Moves :
    (p : Policy) (path : Bytes) (capacity dst_len : ℕ)
    → IsMeasured p
    → IsCString path
    → dst_len ≤ capacity
    → Meets
        (LeftAlone p.enabled p.to p.from path dst_len)
        (λ t. (p.enabled ≡ true) × Moves p.to p.from path t × (length t < dst_len))
        (substitute_prefix_reverse p (some path) capacity dst_len)
substitute_prefix_reverse-Moves p path capacity dst_len m h fits =
    rw (reverse_exchange p (some path) capacity dst_len) (
      substitute_prefix-Moves (exchange p) path capacity dst_len
        (record { from_measured = m.to_measured; to_measured = m.from_measured }) h fits)

-- Told that the buffer is larger than it is, the function writes past its end.
pub substitute_prefix_reverse_overflow :
    (p : Policy) (path : Bytes) (capacity dst_len : ℕ)
    → IsMeasured p
    → IsCString path
    → p.enabled ≡ true
    → (u : IsUnder p.to path) → capacity ≤ length (p.from ++ u.suffix)
    → length (p.from ++ u.suffix) < dst_len
    → substitute_prefix_reverse p (some path) capacity dst_len ≡ fault
substitute_prefix_reverse_overflow p path capacity dst_len m h on u small told =
    substitute_prefix_reverse-IsUnder p path capacity dst_len m h on u ∙ ground arith

pub substitute_prefix_reverse_null :
    (p : Policy) (capacity dst_len : ℕ)
    → p.enabled ≡ true
    → substitute_prefix_reverse p none capacity dst_len ≡ fault
unfolding substitute_prefix_reverse
substitute_prefix_reverse_null p capacity dst_len on = rw on
