-- ===== src/Path/Normal/Names.antt =====
-- The names of a path that is put together from pieces.
use ld_preload.Prelude.{
  ℕ, Bool, true, false, List, [], ◌∷◌, ◌++◌, append-nil, append_assoc, ◌≡◌, ◌≢◌, ◌⊎◌, inl, inr,
  refl, sym, arith, ◌==◌, if◌then◌else◌, Bool-cases, Bytes, All,
}
use ld_preload.Path.Clean.{slash}
use ld_preload.Path.Normal.{names, IsName, base, closed, extend}

extend-append :
    (c d : ℕ) (s s' : Bytes) (ns ms : List Bytes)
    → (d ≢ slash → ns ≢ [])
    → extend c (d ∷ s') (ns ++ ms) ≡ extend c (d ∷ s) ns ++ ms
extend-append c d s s' [] [] h = refl
extend-append c d s s' [] (m ∷ ms) h = elim (Bool-cases (d == slash)) [
  | inl e ↦ rw e
  | inr e ↦ absurd (h (ground arith) refl)
]
extend-append c d s s' (n ∷ ns) ms h = ground arith

extend-ne-nil : (c : ℕ) (s : Bytes) (ns : List Bytes) → extend c s ns ≢ []
extend-ne-nil c [] ns = cc
extend-ne-nil c (d ∷ s) [] = cc
extend-ne-nil c (d ∷ s) (n ∷ ns) = ground arith

names-ne-nil : (d : ℕ) (s : Bytes) → d ≢ slash → names (d ∷ s) ≢ []
unfolding names
names-ne-nil d s h = ground (arith, extend-ne-nil d s (names s))

names-cons :
    (c : ℕ) (s : Bytes) → names (c ∷ s) ≡ (if c == slash then names s else extend c s (names s))
unfolding names
names-cons c s = refl

-- A slash ends a name, whatever stands around it.
pub names-append_slash : (s t : Bytes) → names (s ++ slash ∷ t) ≡ names s ++ names t
names-append_slash [] t = unfold names in refl
names-append_slash (c ∷ []) t = unfold names in ground arith
names-append_slash (c ∷ d ∷ s) t =
    let rest = d ∷ (s ++ slash ∷ t) in
    rw (names-cons c rest, names-cons c (d ∷ s), names-append_slash (d ∷ s) t)
      (ground
        (arith, extend-append c d s (s ++ slash ∷ t) (names (d ∷ s)) (names t) (names-ne-nil d s)))

pub names-IsName : (n : Bytes) → IsName n → names n ≡ n ∷ []
unfolding names
names-IsName [] h = absurd (h.ne_nil refl)
names-IsName (c ∷ []) h = ground (arith, h.no_slash)
names-IsName (c ∷ d ∷ s) h =
    ground (
      arith,
      h.no_slash,
      names-IsName (d ∷ s) (record { ne_nil = λ e. cc; no_slash = h.no_slash.1 }),
    )

-- Each piece between slashes is a name.
extend-IsName :
    (c : ℕ) (s : Bytes) (ns : List Bytes) → c ≢ slash → All IsName ns → All IsName (extend c s ns)
extend-IsName c [] ns h k = (record { ne_nil = λ e. cc; no_slash = (h, tt) }, tt)
extend-IsName c (d ∷ s) [] h k = (record { ne_nil = λ e. cc; no_slash = (h, tt) }, tt)
extend-IsName c (d ∷ s) (n ∷ ns) h k = elim (Bool-cases (d == slash)) [
  | inl e ↦ rw e (record { ne_nil = λ e. cc; no_slash = (h, tt) }, k)
  | inr e ↦ rw e (record { ne_nil = λ e. cc; no_slash = (h, k.0.no_slash) }, k.1)
]

pub names-All-IsName : (s : Bytes) → All IsName (names s)
unfolding names
names-All-IsName [] = tt
names-All-IsName (c ∷ s) = elim (Bool-cases (c == slash)) [
  | inl e ↦ rw e (names-All-IsName s)
  | inr e ↦ rw e (extend-IsName c s (names s) (ground arith) (names-All-IsName s))
]

-- The kept names, the first one first.
abbrev pub in_order : List Bytes → List Bytes
in_order [] = []
in_order (k ∷ ks) = in_order ks ++ k ∷ []

-- The text up to where a name goes is empty or ends with a slash.
base-ends :
    (absolute : Bool) (ks : List Bytes)
    → (base absolute ks ≡ []) ⊎ ((s : Bytes) × (base absolute ks ≡ s ++ slash ∷ []))
base-ends true [] = inr ([], refl)
base-ends false [] = inl refl
base-ends absolute (k ∷ ks) =
    inr (base absolute ks ++ k, sym (append_assoc (base absolute ks) k (slash ∷ [])))

pub names-base-append :
    (absolute : Bool) (ks : List Bytes) (t : Bytes)
    → names (base absolute ks ++ t) ≡ names (base absolute ks) ++ names t
names-base-append absolute ks t = elim (base-ends absolute ks) [
  | inl e ↦ rw e (unfold names in refl)
  | inr (s, e) ↦
      rw (e, append_assoc s (slash ∷ []) t, names-append_slash s t, names-append_slash s [])
        (unfold names in rw append-nil)
]

pub names-base :
    (absolute : Bool) (ks : List Bytes) → All IsName ks → names (base absolute ks) ≡ in_order ks
names-base true [] h = unfold names in refl
names-base false [] h = unfold names in refl
names-base absolute (k ∷ ks) h =
    rw
      (
        names-base-append absolute ks (k ++ slash ∷ []),
        names-append_slash k [],
        names-IsName k h.0,
        names-base absolute ks h.1,
      )
      (unfold names in refl)

pub names-closed :
    (absolute : Bool) (ks : List Bytes) → All IsName ks → names (closed absolute ks) ≡ in_order ks
names-closed absolute [] h = names-base absolute [] h
names-closed absolute (k ∷ ks) h =
    rw (names-base-append absolute ks k, names-IsName k h.0, names-base absolute ks h.1)
