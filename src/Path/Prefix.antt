-- ===== src/Path/Prefix.antt =====
-- rtld_linux.c, `path_matches_prefix`, `substitute_prefix` and `substitute_prefix_reverse`.
pub mod Laws
pub mod Substitute
pub mod Reverse
use ld_preload.Prelude.{
  ℕ, zero, suc, ◌+◌, Bool, true, false, not, ◌&&◌, ◌||◌, List, [], ◌∷◌, ◌++◌, Option, some, none,
  ltb, leb, ◌==◌, if◌then◌else◌, Bytes, length, get_or, take, drop, Outcome, fault, ok, ◌>>=◌, ◌>>◌,
  refuse_if, access_if,
}
use ld_preload.Path.Clean.{slash}

-- `struct rewrite_policy`. The arrays `from` and `to` are the strings in them.
pub record Policy : Type 0 where
  pub enabled : Bool
  pub from_len : ℕ
  pub to_len : ℕ
  pub from : Bytes
  pub to : Bytes

-- `strncmp(s, t, n) == 0`
pub strncmp_eq : ℕ → Bytes → Bytes → Bool
strncmp_eq zero s t = true
strncmp_eq (suc n) [] [] = true
strncmp_eq (suc n) (a ∷ s) (b ∷ t) = a == b && strncmp_eq n s t
strncmp_eq (suc n) _ _ = false

-- `path[i]`; the byte behind the last one is the NUL.
pub byte_at : Bytes → ℕ → Outcome ℕ
byte_at path i = do access_if (leb i (length path)); ok (get_or path i 0)

unfoldable pub path_matches_prefix : Option Bytes → Bytes → ℕ → Outcome Bool
unfolding strncmp_eq byte_at
path_matches_prefix none prefix prefix_len = fault
path_matches_prefix (some path) prefix prefix_len =
    if not (strncmp_eq prefix_len path prefix)
    then ok false
    else (do c ← byte_at path prefix_len; ok (c == 0 || c == slash))

-- The bytes of `path` from `old_len` on, behind `new`: the tail of both functions.
pub copy_suffix : Bytes → ℕ → ℕ → Bytes → ℕ → ℕ → Outcome Bytes
copy_suffix new new_len old_len path capacity dst_len = do
  let suffix = drop old_len path
  refuse_if (ltb dst_len (new_len + length suffix + 1))
  access_if (leb (new_len + length suffix + 1) capacity)
  ok (take new_len new ++ suffix)

abbrev pub or_nil : Option Bytes → Bytes
or_nil none = []
or_nil (some path) = path

unfoldable pub substitute_prefix : Policy → Option Bytes → ℕ → ℕ → Outcome Bytes
unfolding path_matches_prefix copy_suffix
substitute_prefix p path capacity dst_len = do
  matches ← if p.enabled then path_matches_prefix path p.from p.from_len else ok false
  refuse_if (not matches)
  copy_suffix p.to p.to_len p.from_len (or_nil path) capacity dst_len

unfoldable pub substitute_prefix_reverse : Policy → Option Bytes → ℕ → ℕ → Outcome Bytes
unfolding path_matches_prefix copy_suffix
substitute_prefix_reverse p path capacity dst_len = do
  matches ← if p.enabled then path_matches_prefix path p.to p.to_len else ok false
  refuse_if (not matches)
  copy_suffix p.from p.from_len p.to_len (or_nil path) capacity dst_len
