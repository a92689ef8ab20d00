-- ===== src/Path/Normal/Laws.antt =====
-- Laws of the clean text of an absolute path.
use ld_preload.Prelude.{
  ℕ, Bool, true, false, List, [], ◌∷◌, ◌++◌, append_assoc, ◌≡◌, ◌⊎◌, inl, inr, refl, ap, sym, ◌∙◌,
  arith, if◌then◌else◌, Bool-cases, Bytes, All, All-append, codes,
}
use ld_preload.Path.Clean.{slash, is_dot, is_dot_dot, is_absolute}
use ld_preload.Path.Normal.{
  names, IsName, Normal, nothing_kept, keep, base, closed, text, resolve_name, resolve, normalise,
  clean, or_dot,
}
use ld_preload.Path.Normal.Names.{
  names-append_slash, names-IsName, names-All-IsName, in_order, names-base, names-closed,
}

-- A name that is neither `.` nor `..`.
pub record IsProper (n : Bytes) : Type 0 where
  pub name : IsName n
  pub not_dot : is_dot n ≡ false
  pub not_dot_dot : is_dot_dot n ≡ false

resolve_name-IsProper :
    (n : Bytes) (ks : List Bytes) (popped : Bool)
    → IsName n
    → All IsProper ks
    → All IsProper (resolve_name true n (record { kept = ks; popped = popped })).kept
unfolding resolve_name
resolve_name-IsProper n [] popped h k = ground (arith, h)
resolve_name-IsProper n (m ∷ ks) popped h k = ground (arith, h, k.0, k.1)

resolve-IsProper :
    (ns : List Bytes) (s : Normal)
    → All IsName ns
    → All IsProper s.kept
    → All IsProper (resolve true ns s).kept
unfolding resolve
resolve-IsProper [] s h k = k
resolve-IsProper (n ∷ ns) s h k =
    resolve-IsProper ns (resolve_name true n s) h.1 (resolve_name-IsProper n s.kept s.popped h.0 k)

resolve-append :
    (absolute : Bool) (ns ms : List Bytes) (s : Normal)
    → resolve absolute (ns ++ ms) s ≡ resolve absolute ms (resolve absolute ns s)
unfolding resolve
resolve-append absolute [] ms s = refl
resolve-append absolute (n ∷ ns) ms s = resolve-append absolute ns ms (resolve_name absolute n s)

resolve_proper :
    (absolute : Bool) (n : Bytes) (s : Normal) → IsProper n → resolve_name absolute n s ≡ keep n s
unfolding resolve_name
resolve_proper absolute n s h = rw (h.not_dot, h.not_dot_dot)

resolve-in_order :
    (absolute : Bool) (ks : List Bytes)
    → All IsProper ks
    → resolve absolute (in_order ks) nothing_kept ≡ record { kept = ks; popped = false }
resolve-in_order absolute [] h = unfold resolve in refl
resolve-in_order absolute (k ∷ ks) h =
    rw (resolve-append absolute (in_order ks) (k ∷ []), resolve-in_order absolute ks h.1)
      (unfold resolve in resolve_proper absolute k _ h.0)

base-head : (ks : List Bytes) → (t : Bytes) × (base true ks ≡ slash ∷ t)
base-head [] = ([], refl)
base-head (k ∷ ks) = let (t, e) = base-head ks in (t ++ (k ++ slash ∷ []), rw e)

text-head : (s : Normal) → (t : Bytes) × (text true s ≡ slash ∷ t)
text-head s = by_case s.kept s.popped
  where
    by_case :
        (ks : List Bytes) (popped : Bool)
        → (t : Bytes) × ((if popped then base true ks else closed true ks) ≡ slash ∷ t)
    by_case ks true = base-head ks
    by_case [] false = ([], refl)
    by_case (k ∷ ks) false = let (t, e) = base-head ks in (t ++ k, rw e)

kept-IsProper : (src : Bytes) → is_absolute src ≡ true → All IsProper (normalise src).kept
unfolding normalise
kept-IsProper src h = rw h (resolve-IsProper (names src) nothing_kept (names-All-IsName src) tt)

All-IsName : (ks : List Bytes) → All IsProper ks → All IsName ks
All-IsName [] h = tt
All-IsName (k ∷ ks) h = (h.0.name, All-IsName ks h.1)

All-in_order : (ks : List Bytes) → All IsProper ks → All IsProper (in_order ks)
All-in_order [] h = tt
All-in_order (k ∷ ks) h = All-append IsProper (in_order ks) (k ∷ []) (All-in_order ks h.1) (h.0, tt)

names-text : (s : Normal) → All IsProper s.kept → names (text true s) ≡ in_order s.kept
names-text s h = elim (Bool-cases s.popped) [
  | inl e ↦ rw e (names-base true s.kept (All-IsName s.kept h))
  | inr e ↦ rw e (names-closed true s.kept (All-IsName s.kept h))
]

or_dot-text : (s : Normal) → or_dot (text true s) ≡ text true s
or_dot-text s = let (t, e) = text-head s in rw e

-- The clean text of an absolute path, without the case of the empty text.
pub clean-text : (src : Bytes) → is_absolute src ≡ true → clean src ≡ text true (normalise src)
unfolding clean
clean-text src h =
    ap (λ (b : Bool). or_dot (text b (normalise src))) h ∙ or_dot-text (normalise src)

-- The clean text of an absolute path is absolute, and none of its names is empty, `.` or `..`.
pub clean-IsProper :
    (src : Bytes)
    → is_absolute src ≡ true
    → (is_absolute (clean src) ≡ true) × All IsProper (names (clean src))
clean-IsProper src h =
    let s = normalise src in
    rw (clean-text src h) (
      (let (t, e) = text-head s in rw e),
      rw (names-text s (kept-IsProper src h)) (All-in_order s.kept (kept-IsProper src h)),
    )

normalise-text :
    (s : Normal)
    → All IsProper s.kept
    → normalise (text true s) ≡ record { kept = s.kept; popped = false }
unfolding normalise
normalise-text s h =
    let (t, e) = text-head s in
    let absolute : is_absolute (text true s) ≡ true = rw e in
    rw (absolute, names-text s h) (resolve-in_order true s.kept h)

-- Cleaning once more gives the names kept, with no slash behind them.
clean-text-closed : (s : Normal) → All IsProper s.kept → clean (text true s) ≡ closed true s.kept
clean-text-closed s h =
    let (t, e) = text-head s in clean-text (text true s) (rw e) ∙ rw (normalise-text s h)

text-closed :
    (s : Normal)
    → (text true s ≡ closed true s.kept) ⊎ (text true s ≡ closed true s.kept ++ slash ∷ [])
text-closed s = by_case s.kept s.popped
  where
    by_case :
        (ks : List Bytes) (popped : Bool)
        → ((if popped then base true ks else closed true ks) ≡ closed true ks)
          ⊎ ((if popped then base true ks else closed true ks) ≡ closed true ks ++ slash ∷ [])
    by_case ks false = inl refl
    by_case [] true = inl refl
    by_case (k ∷ ks) true = inr (sym (append_assoc (base true ks) k (slash ∷ [])))

-- Cleaning the clean text of an absolute path changes nothing, or takes off one trailing slash.
pub clean-clean :
    (src : Bytes)
    → is_absolute src ≡ true
    → (clean src ≡ clean (clean src)) ⊎ (clean src ≡ clean (clean src) ++ slash ∷ [])
clean-clean src h =
    let s = normalise src in
    rw (clean-text src h, clean-text-closed s (kept-IsProper src h)) (text-closed s)

-- The text of an absolute path made of proper names, the latest first: one slash in front of each,
-- and at most one behind the last.
pub record IsTidy (t : Bytes) : Type 0 where
  pub kept : List Bytes
  pub proper : All IsProper kept
  pub shape : (t ≡ closed true kept) ⊎ (t ≡ base true kept)

pub clean-IsTidy : (src : Bytes) → is_absolute src ≡ true → IsTidy (clean src)
clean-IsTidy src h = record {
  kept = (normalise src).kept;
  proper = kept-IsProper src h;
  shape = rw (clean-text src h) (by_last (normalise src).kept (normalise src).popped);
}
  where
    by_last :
        (ks : List Bytes) (popped : Bool)
        → ((if popped then base true ks else closed true ks) ≡ closed true ks)
          ⊎ ((if popped then base true ks else closed true ks) ≡ base true ks)
    by_last ks false = inl refl
    by_last ks true = inr refl

resolve_up :
    (x : Bytes) (s : Normal)
    → IsProper x
    → resolve true (x ∷ codes ".." ∷ []) s ≡ record { kept = s.kept; popped = true }
unfolding resolve
resolve_up x s h = rw (resolve_proper true x s h) (unfold resolve_name in refl)

names_up :
    (src x : Bytes)
    → IsProper x
    → names (src ++ slash ∷ (x ++ codes "/..")) ≡ names src ++ x ∷ codes ".." ∷ []
names_up src x h =
    rw
      (
        names-append_slash src (x ++ codes "/.."),
        names-append_slash x (codes ".."),
        names-IsName x h.name,
      )
      (unfold names in refl)

normalise_up :
    (c : ℕ) (s x : Bytes)
    → is_absolute (c ∷ s) ≡ true
    → IsProper x
    → normalise ((c ∷ s) ++ slash ∷ (x ++ codes "/.."))
      ≡ record { kept = (normalise (c ∷ s)).kept; popped = true }
unfolding normalise
normalise_up c s x h k =
    rw
      (
        h,
        names_up (c ∷ s) x k,
        resolve-append true (names (c ∷ s)) (x ∷ codes ".." ∷ []) nothing_kept,
      )
      (resolve_up x (resolve true (names (c ∷ s)) nothing_kept) k)

-- `/x/..` behind an absolute path, for a proper name x, leaves a slash at the end of the clean
-- text: that of the path's kept names, each with a slash behind it.
pub clean_trailing_slash :
    (src x : Bytes)
    → is_absolute src ≡ true
    → IsProper x
    → clean (src ++ slash ∷ (x ++ codes "/..")) ≡ base true (normalise src).kept
clean_trailing_slash [] x h k = cc
clean_trailing_slash (c ∷ s) x h k =
    clean-text ((c ∷ s) ++ slash ∷ (x ++ codes "/..")) h ∙ rw (normalise_up c s x h k)
