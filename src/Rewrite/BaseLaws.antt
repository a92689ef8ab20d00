-- ===== src/Rewrite/BaseLaws.antt =====
-- The directory from which a relative path starts: the branches of
-- `rewrite_relative_path_from_dirfd` that fill `base`.
use ld_preload.Prelude.{
  ◌-◌, ◌<◌, true, not, Option, none, some, ◌≡◌, false, inl, inr, refl, sym, subst, arith, Bytes,
  IsCString, length, length-append, leb, codes, ℤ, int_eq, decimal, IsInt, length-decimal-le, ◌∙◌,
  Outcome, fault, hang, refuse, ok, Meets, if◌then◌else◌, Bool-cases,
}
use ld_preload.Libc.{Libc, Symbol, at_fdcwd}
use ld_preload.Path.Clean.{path_max, is_absolute, clean_path_into}
use ld_preload.Path.Clean.Loop.{TooLong}
use ld_preload.Path.Clean.Refine.{clean_path_into-clean}
use ld_preload.Path.Normal.{clean}
use ld_preload.Path.Normal.NulFree.{clean-IsCString}
use ld_preload.Process.{Process, M, pure, attempt, ensure_symbols}
use ld_preload.Process.Laws.{
  IsLibc, IsSound, Keeps, Keeps-world, Keeps-trans, Runs, Runs-map, Runs-if,
}
use ld_preload.Process.Once.{Runs-pure, Attempted, attempt_lem, ensure_symbols_again, bind_ok}
use ld_preload.Rewrite.{fd_path, base_of_cwd, base_of_link, base_of_fd}
use ld_preload.Rewrite.Relations.{LinkBase, unread, long, cleaned, BaseAt}

length-fd_path-lt : (dirfd : ℤ) → IsInt dirfd → length (fd_path dirfd) < 64
unfolding fd_path
length-fd_path-lt dirfd h =
    omega (arith, length-append (codes "/proc/self/fd/") (decimal dirfd), length-decimal-le dirfd h)

-- A base that was found is a C string.
abbrev pub IsText : Option Bytes → Type 0
IsText none = Unit
IsText (some base) = IsCString base

IsText-of : (o : Option Bytes) → ((t : Bytes) → o ≡ some t → IsCString t) → IsText o
IsText-of none h = tt
IsText-of (some t) h = h t refl

-- What is known of the base that a link gives.
abbrev Cleaned : Option Bytes → Option Bytes → Type 0
Cleaned text base = IsText base × LinkBase text base

Attempted-Cleaned :
    (text : Bytes) (r : Option Bytes)
    → IsCString text
    → length text < path_max - 1
    → is_absolute text ≡ true
    → Attempted (TooLong path_max (length text)) (λ t. (t ≡ clean text) × (length t < path_max)) r
    → Cleaned (some text) r
Attempted-Cleaned text none h short a m = absurd (fits m)
  where
    fits : ¬ TooLong path_max (length text)
    fits (inl e) = omega arith
    fits (inr (inl e)) = omega arith
    fits (inr (inr e)) = omega arith
Attempted-Cleaned text (some t) h short a m =
    subst (λ u. Cleaned (some text) (some u)) (sym m.0) (clean-IsCString text h, cleaned short a)

module _ {W : Type 0} where
  -- A change of the world in front.
  Runs-world :
      {A : Type 0} (R : A → Process W → Type 0) (m : M W A) (p : Process W) (w : W)
      → IsSound p.rewrite_policy
      → Runs R m (record p { world = w })
      → Meets ⊥ (λ r. Keeps p r.1 × R r.0 r.1) (m (record p { world = w }))
  Runs-world {A} R m p w s h = go (m (record p { world = w })) h
    where
      go :
          (o : Outcome (A × Process W))
          → Meets ⊥ (λ r. Keeps (record p { world = w }) r.1 × R r.0 r.1) o
          → Meets ⊥ (λ r. Keeps p r.1 × R r.0 r.1) o
      go fault h = h
      go hang h = h
      go refuse h = h
      go (ok (a, q)) h = (Keeps-trans (Keeps-world p w s) h.0, h.1)

  base_of_link_lem :
      (text : Option Bytes) (p : Process W)
      → IsSound p.rewrite_policy
      → IsText text
      → Runs (λ b q. Cleaned text b × (q ≡ p)) (base_of_link text) p
  unfolding base_of_link
  base_of_link_lem none p s h =
      Runs-pure (λ b q. Cleaned none b × (q ≡ p)) none p s ((tt, unread), refl)
  base_of_link_lem (some text) p s h =
      let R = λ (b : Option Bytes) (q : Process W). Cleaned (some text) b × (q ≡ p) in
      Runs-if R (leb (path_max - 1) (length text)) (pure none) _ p
        (λ e. Runs-pure R none p s ((tt, long (ground (arith, e))), refl))
        (λ short.
          Runs-if R (not (is_absolute text)) (pure none) _ p
            (λ e. Runs-pure R none p s ((tt, LinkBase.relative (ground (arith, e))), refl))
            (λ a.
              Runs-map _ R (attempt (clean_path_into (some text) (some path_max) path_max)) p
                (attempt_lem _ _ _ p s (clean_path_into-clean text path_max path_max (omega arith)))
                (λ r q k m. (
                  Attempted-Cleaned text r h (ground (arith, short)) (ground (arith, a)) m.1,
                  m.0,
                ))))

module _ {W : Type 0} (L : Libc W) where
  -- Behind the test on the length of `fd_path`.
  abbrev read_link : ℤ → M W (Option Bytes)
  read_link dirfd p =
      if p.real Symbol.readlink
      then (let (base, w) = L.readlink (fd_path dirfd) (path_max - 1) p.world in
          base_of_link base (record p { world = w }))
      else pure none p

  -- For a descriptor that is a 32-bit `int`, with the symbols resolved and the real `readlink` found:
  -- the path of its link fits the 64 bytes of `fd_path`, so that the test on its length never fires,
  -- and the base is made of what `readlink` tells of that path.
  pub base_of_fd_named :
      (dirfd : ℤ) (p : Process W)
      → IsInt dirfd
      → p.resolve_once ≡ true
      → p.real Symbol.readlink ≡ true
      → (length (fd_path dirfd) < 64)
        × (base_of_fd L dirfd p
            ≡ base_of_link
                (L.readlink (fd_path dirfd) (path_max - 1) p.world).0
                (record p { world = (L.readlink (fd_path dirfd) (path_max - 1) p.world).1 }))
  unfolding base_of_fd
  base_of_fd_named dirfd p h once found =
      let short = length-fd_path-lt dirfd h in
      let unfired : leb 64 (length (fd_path dirfd)) ≡ false = ground (arith, short) in
      (
        short,
        rw unfired (
            bind_ok (ensure_symbols L) (λ _. read_link dirfd) p (tt, p)
              (ensure_symbols_again L p once)
            ∙ behind p found),
      )
    where
      behind :
          (p : Process W)
          → p.real Symbol.readlink ≡ true
          → read_link dirfd p
            ≡ base_of_link
                (L.readlink (fd_path dirfd) (path_max - 1) p.world).0
                (record p { world = (L.readlink (fd_path dirfd) (path_max - 1) p.world).1 })
      behind p e = rw e refl

module _ {W : Type 0} (L : Libc W) (l : IsLibc L) where
  -- What is known of the base of a relative path.
  abbrev pub Found : ℤ → Process W → Option Bytes → Process W → Type 0
  Found dirfd p base q = IsText base × BaseAt L dirfd p base q

  base_of_cwd_lem :
      (dirfd : ℤ) (p : Process W)
      → IsSound p.rewrite_policy
      → int_eq dirfd at_fdcwd ≡ true
      → Runs (Found dirfd p) (base_of_cwd L) p
  unfolding base_of_cwd
  base_of_cwd_lem dirfd p s at = elim (Bool-cases (p.real Symbol.getcwd)) [
    | inl e ↦ rw e (
      Keeps-world p (L.getcwd path_max p.world).1 s,
      (
        IsText-of (L.getcwd path_max p.world).0 (l.getcwd_text path_max p.world),
        BaseAt.cwd at e refl refl,
      ),
    )
    | inr e ↦ rw e (Runs-pure (Found dirfd p) none p s (tt, BaseAt.getcwd_missing at e refl refl))
  ]

  read_link_lem :
      (dirfd : ℤ) (p : Process W)
      → IsSound p.rewrite_policy
      → int_eq dirfd at_fdcwd ≡ false
      → Runs (Found dirfd p) (read_link L dirfd) p
  read_link_lem dirfd p s fd = elim (Bool-cases (p.real Symbol.readlink)) [
    | inl e ↦
        let text = (L.readlink (fd_path dirfd) (path_max - 1) p.world).0 in
        let w = (L.readlink (fd_path dirfd) (path_max - 1) p.world).1 in
        rw e (
          Runs-world (Found dirfd p) (base_of_link text) p w s (
            Runs-map _ (Found dirfd p) (base_of_link text) (record p { world = w })
              (base_of_link_lem text (record p { world = w }) s
                (IsText-of text (l.readlink_text (fd_path dirfd) (path_max - 1) p.world)))
              (λ b q k m. ((m.0).0, BaseAt.link fd e (m.0).1 m.1))))
    | inr e ↦ rw e (Runs-pure (Found dirfd p) none p s (tt, BaseAt.readlink_missing fd e refl refl))
  ]

  base_of_fd_lem :
      (dirfd : ℤ) (p : Process W)
      → IsSound p.rewrite_policy
      → p.resolve_once ≡ true
      → int_eq dirfd at_fdcwd ≡ false
      → Runs (Found dirfd p) (base_of_fd L dirfd) p
  unfolding base_of_fd
  base_of_fd_lem dirfd p s once fd =
      Runs-if (Found dirfd p) (leb 64 (length (fd_path dirfd))) (pure none) _ p
        (λ e.
          Runs-pure (Found dirfd p) none p s
            (tt, BaseAt.fd_path_long fd (ground (arith, e)) refl refl))
        (λ _.
          subst (λ o. Meets ⊥ (λ r. Keeps p r.1 × Found dirfd p r.0 r.1) o)
            (sym (
              bind_ok (ensure_symbols L) (λ _. read_link L dirfd) p (tt, p)
                (ensure_symbols_again L p once)))
            (read_link_lem dirfd p s fd))

  pub base_of_lem :
      (dirfd : ℤ) (p : Process W)
      → IsSound p.rewrite_policy
      → p.resolve_once ≡ true
      → Runs (Found dirfd p) (if int_eq dirfd at_fdcwd then base_of_cwd L else base_of_fd L dirfd) p
  base_of_lem dirfd p s once =
      Runs-if (Found dirfd p) (int_eq dirfd at_fdcwd) (base_of_cwd L) (base_of_fd L dirfd) p
        (λ at. base_of_cwd_lem dirfd p s at) (λ fd. base_of_fd_lem dirfd p s once fd)
