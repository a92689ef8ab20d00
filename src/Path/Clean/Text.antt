-- ===== src/Path/Clean/Text.antt =====
-- How the buffer of `clean_path_into` ends, and what its steps make of the text in it.
use ld_preload.Prelude.{
  ℕ, ◌-◌, ◌≤◌, ◌<◌, Bool, true, false, List, [], ◌∷◌, ◌++◌, append_assoc, ◌≡◌, ◌≢◌, refl, ap, suc,
  arith, Bytes, length, length-append, if◌then◌else◌, get_or, take, take-append, All,
}
use ld_preload.Path.Clean.{slash, Cleaner}
use ld_preload.Path.Normal.{IsName, Normal, base, closed, text}

-- Where the kept names start in the text, the latest first.
abbrev pub starts : Bool → List Bytes → List ℕ
starts absolute [] = []
starts absolute (k ∷ ks) = length (base absolute ks) ∷ starts absolute ks

-- The buffer of `dst_len` bytes holds the text of the names kept, with room for the NUL.
pub record Represents (absolute : Bool) (dst_len : ℕ) (n : Normal) (c : Cleaner) : Type 0 where
  pub dst_is : c.dst ≡ text absolute n
  pub starts_is : c.seg_starts ≡ starts absolute n.kept
  pub kept_names : All IsName n.kept
  pub short : length c.dst < dst_len

pub length-starts : (absolute : Bool) (ks : List Bytes) → length (starts absolute ks) ≡ length ks
length-starts absolute [] = refl
length-starts absolute (k ∷ ks) = ap suc (length-starts absolute ks)

-- The last byte of a text.
abbrev pub last_byte : Bytes → ℕ
last_byte s = get_or s (length s - 1) 0

last_byte-append : (xs : Bytes) (y : ℕ) (ys : Bytes) → last_byte (xs ++ y ∷ ys) ≡ last_byte (y ∷ ys)
last_byte-append [] y ys = refl
last_byte-append (x ∷ []) y ys = ground arith
last_byte-append (x ∷ x' ∷ xs) y ys = ground (arith, last_byte-append (x' ∷ xs) y ys)

last_byte-ne-slash :
    (y : ℕ) (ys : Bytes) → All (λ c. c ≢ slash) (y ∷ ys) → last_byte (y ∷ ys) ≢ slash
last_byte-ne-slash y [] h = ground arith
last_byte-ne-slash y (z ∷ ys) h = ground (arith, last_byte-ne-slash z ys)

pub closed-last_byte :
    (absolute : Bool) (k : Bytes) (ks : List Bytes)
    → IsName k
    → (length (closed absolute (k ∷ ks)) ≢ 0) × (last_byte (closed absolute (k ∷ ks)) ≢ slash)
closed-last_byte absolute [] ks h = absurd (h.ne_nil refl)
closed-last_byte absolute (y ∷ ys) ks h = (
  omega (arith, length-append (base absolute ks) (y ∷ ys)),
  ground (arith, last_byte-append (base absolute ks) y ys, last_byte-ne-slash y ys h.no_slash),
)

append_slash : (xs : Bytes) → last_byte (xs ++ slash ∷ []) ≡ slash
append_slash xs = last_byte-append xs slash []

pub base-last_byte :
    (absolute : Bool) (ks : List Bytes)
    → base absolute ks ≢ []
    → last_byte (base absolute ks) ≡ slash
base-last_byte true [] h = refl
base-last_byte false [] h = absurd (h refl)
base-last_byte absolute (k ∷ ks) h = rw (← append_assoc) (append_slash (base absolute ks ++ k))

pub base-ne-zero :
    (absolute : Bool) (ks : List Bytes) → absolute ≡ true → length (base absolute ks) ≢ 0
base-ne-zero true [] h = omega arith
base-ne-zero false [] h = cc
base-ne-zero absolute (k ∷ ks) h =
    omega (arith, base-ne-zero absolute ks h, length-append (base absolute ks) (k ++ slash ∷ []))

-- Cutting the text where its last name starts leaves the text up to there.
pub take-text :
    (absolute : Bool) (k : Bytes) (ks : List Bytes) (popped : Bool)
    → (take (length (base absolute ks)) (text absolute (record { kept = k ∷ ks; popped = popped }))
        ≡ base absolute ks)
      × (length (base absolute ks)
          ≤ length (text absolute (record { kept = k ∷ ks; popped = popped })))
take-text absolute k ks true = (
  take-append (base absolute ks) (k ++ slash ∷ []),
  omega (arith, length-append (base absolute ks) (k ++ slash ∷ [])),
)
take-text absolute k ks false =
    (take-append (base absolute ks) k, omega (arith, length-append (base absolute ks) k))

-- The text of an absolute path is not empty.
pub text-ne-nil : (absolute : Bool) (n : Normal) → absolute ≡ true → length (text absolute n) ≢ 0
text-ne-nil absolute n h = by_case n.kept n.popped
  where
    by_case :
        (ks : List Bytes) (popped : Bool)
        → length (if popped then base absolute ks else closed absolute ks) ≢ 0
    by_case ks true = base-ne-zero absolute ks h
    by_case [] false = base-ne-zero absolute [] h
    by_case (k ∷ ks) false =
        omega (arith, base-ne-zero absolute ks h, length-append (base absolute ks) k)
