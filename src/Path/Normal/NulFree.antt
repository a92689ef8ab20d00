-- ===== src/Path/Normal/NulFree.antt =====
-- The clean text holds no byte that the path did not hold, but slashes and dots.
use ld_preload.Prelude.{
  ℕ, Bool, true, false, List, [], ◌∷◌, ◌++◌, ◌≢◌, inl, inr, arith, ◌==◌, Bool-cases, Bytes,
  IsCString, All, All-append,
}
use ld_preload.Path.Clean.{slash, is_absolute}
use ld_preload.Path.Normal.{
  names, Normal, nothing_kept, base, text, extend, resolve_name, resolve, normalise, clean, or_dot,
}

extend-IsCString :
    (c : ℕ) (s : Bytes) (ns : List Bytes) → c ≢ 0 → All IsCString ns → All IsCString (extend c s ns)
extend-IsCString c [] ns h k = ((h, tt), tt)
extend-IsCString c (d ∷ s) [] h k = ((h, tt), tt)
extend-IsCString c (d ∷ s) (n ∷ ns) h k = elim (Bool-cases (d == slash)) [
  | inl e ↦ rw e ((h, tt), k)
  | inr e ↦ rw e ((h, k.0), k.1)
]

names-IsCString : (s : Bytes) → IsCString s → All IsCString (names s)
unfolding names
names-IsCString [] h = tt
names-IsCString (c ∷ s) h = elim (Bool-cases (c == slash)) [
  | inl e ↦ rw e (names-IsCString s h.1)
  | inr e ↦ rw e (extend-IsCString c s (names s) h.0 (names-IsCString s h.1))
]

resolve_name-IsCString :
    (absolute : Bool) (n : Bytes) (ks : List Bytes) (popped : Bool)
    → IsCString n
    → All IsCString ks
    → All IsCString (resolve_name absolute n (record { kept = ks; popped = popped })).kept
unfolding resolve_name
resolve_name-IsCString absolute n [] popped h k = ground (arith, h)
resolve_name-IsCString absolute n (m ∷ ks) popped h k = ground (arith, h, k)

resolve-IsCString :
    (absolute : Bool) (ns : List Bytes) (s : Normal)
    → All IsCString ns
    → All IsCString s.kept
    → All IsCString (resolve absolute ns s).kept
unfolding resolve
resolve-IsCString absolute [] s h k = k
resolve-IsCString absolute (n ∷ ns) s h k =
    resolve-IsCString absolute ns (resolve_name absolute n s) h.1
      (resolve_name-IsCString absolute n s.kept s.popped h.0 k)

base-IsCString :
    (absolute : Bool) (ks : List Bytes) → All IsCString ks → IsCString (base absolute ks)
base-IsCString true [] h = omega arith
base-IsCString false [] h = tt
base-IsCString absolute (k ∷ ks) h =
    All-append _ (base absolute ks) (k ++ slash ∷ []) (base-IsCString absolute ks h.1)
      (All-append _ k (slash ∷ []) h.0 (omega arith))

text-IsCString :
    (absolute : Bool) (ks : List Bytes) (popped : Bool)
    → All IsCString ks
    → IsCString (text absolute (record { kept = ks; popped = popped }))
text-IsCString absolute ks true h = base-IsCString absolute ks h
text-IsCString absolute [] false h = base-IsCString absolute [] h
text-IsCString absolute (k ∷ ks) false h =
    All-append _ (base absolute ks) k (base-IsCString absolute ks h.1) h.0

or_dot-IsCString : (s : Bytes) → IsCString s → IsCString (or_dot s)
or_dot-IsCString [] h = omega arith
or_dot-IsCString (c ∷ s) h = h

pub clean-IsCString : (src : Bytes) → IsCString src → IsCString (clean src)
unfolding clean normalise
clean-IsCString src h =
    let a = is_absolute src in
    let s = resolve a (names src) nothing_kept in
    or_dot-IsCString (text a s) (
      text-IsCString a s.kept s.popped
        (resolve-IsCString a (names src) nothing_kept (names-IsCString src h) tt))
