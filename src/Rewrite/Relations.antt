-- ===== src/Rewrite/Relations.antt =====
-- What becomes of a path argument, stated apart from the buffers and the order of the code: each
-- relation is between the process at the entry, the argument, what is passed on, and the process
-- that is left.
use ld_preload.Prelude.{
  ◌-◌, ◌≤◌, ◌<◌, ◌++◌, ◌∷◌, Bool, true, false, Option, none, some, ◌≡◌, ◌⊎◌, Bytes, length, ℤ,
  int_eq,
}
use ld_preload.Libc.{Libc, Symbol, PathArg, at_fdcwd}
use ld_preload.Path.Clean.{path_max, slash, is_absolute}
use ld_preload.Path.Compose.{Moved, Unmoved}
use ld_preload.Path.Normal.{clean}
use ld_preload.Path.Prefix.{Policy}
use ld_preload.Process.{Process}
use ld_preload.Process.Once.{Policed, with_policy, with_symbols}
use ld_preload.Rewrite.{fd_path}

-- The base that the text of a link gives, if it gives one.
pub data LinkBase : Option Bytes → Option Bytes → Type 0 where
  unread : LinkBase none none
  long : {text : Bytes} → path_max - 1 ≤ length text → LinkBase (some text) none
  relative : {text : Bytes} → is_absolute text ≡ false → LinkBase (some text) none
  cleaned :
      {text : Bytes}
      → length text < path_max - 1
      → is_absolute text ≡ true
      → LinkBase (some text) (some (clean text))

module _ {W : Type 0} (L : Libc W) where
  -- From `p` on to `q`, `path` is passed on as `b` by the functions that rewrite absolute paths only.
  pub data Absolute (p : Process W) (path : Bytes) (b : PathArg) (q : Process W) : Type 0 where
    relative : is_absolute path ≡ false → b ≡ some path → q ≡ p → Absolute p path b q
    stays :
        (policy : Policy)
        → is_absolute path ≡ true
        → Policed L p policy
        → Unmoved policy path path_max
        → b ≡ some path
        → q ≡ with_policy L p policy
        → Absolute p path b q
    moves :
        (policy : Policy) (t : Bytes)
        → is_absolute path ≡ true
        → Policed L p policy
        → Moved policy path path_max t
        → b ≡ some t
        → q ≡ with_policy L p policy
        → Absolute p path b q

  abbrev pub AbsoluteArg : Process W → PathArg → PathArg → Process W → Type 0
  AbsoluteArg p none b q = (b ≡ none) × (q ≡ p)
  AbsoluteArg p (some path) b q = Absolute p path b q

  -- The directory that a relative path starts from, and the process that is left: for AT_FDCWD the
  -- one that the real `getcwd` names, for another descriptor the one that its link names.
  pub data BaseAt (dirfd : ℤ) (p : Process W) (base : Option Bytes) (q : Process W) : Type 0 where
    getcwd_missing :
        int_eq dirfd at_fdcwd ≡ true
        → p.real Symbol.getcwd ≡ false
        → base ≡ none
        → q ≡ p
        → BaseAt dirfd p base q
    cwd :
        int_eq dirfd at_fdcwd ≡ true
        → p.real Symbol.getcwd ≡ true
        → base ≡ (L.getcwd path_max p.world).0
        → q ≡ record p { world = (L.getcwd path_max p.world).1 }
        → BaseAt dirfd p base q
    fd_path_long :
        int_eq dirfd at_fdcwd ≡ false
        → 64 ≤ length (fd_path dirfd)
        → base ≡ none
        → q ≡ p
        → BaseAt dirfd p base q
    readlink_missing :
        int_eq dirfd at_fdcwd ≡ false
        → p.real Symbol.readlink ≡ false
        → base ≡ none
        → q ≡ p
        → BaseAt dirfd p base q
    link :
        int_eq dirfd at_fdcwd ≡ false
        → p.real Symbol.readlink ≡ true
        → LinkBase (L.readlink (fd_path dirfd) (path_max - 1) p.world).0 base
        → q ≡ record p { world = (L.readlink (fd_path dirfd) (path_max - 1) p.world).1 }
        → BaseAt dirfd p base q

  -- The process in which the base is looked up.
  abbrev pub ready : Process W → Policy → Process W
  ready p policy = with_symbols L (with_policy L p policy)

  -- From `p` on to `q`, the relative `path` below `dirfd` is passed on as `b` below `dirfd'`.
  pub data Relative (p : Process W) (dirfd : ℤ) (path : Bytes) (dirfd' : ℤ) (b : PathArg)
      (q : Process W) : Type 0 where
    disabled :
        (policy : Policy)
        → Policed L p policy
        → policy.enabled ≡ false
        → dirfd' ≡ dirfd
        → b ≡ some path
        → q ≡ with_policy L p policy
        → Relative p dirfd path dirfd' b q
    baseless :
        (policy : Policy)
        → Policed L p policy
        → policy.enabled ≡ true
        → BaseAt dirfd (ready p policy) none q
        → dirfd' ≡ dirfd
        → b ≡ some path
        → Relative p dirfd path dirfd' b q
    stays :
        (policy : Policy) (base : Bytes)
        → Policed L p policy
        → policy.enabled ≡ true
        → BaseAt dirfd (ready p policy) (some base) q
        → Unmoved policy (base ++ slash ∷ path) path_max
        → dirfd' ≡ dirfd
        → b ≡ some path
        → Relative p dirfd path dirfd' b q
    moves :
        (policy : Policy) (base t : Bytes)
        → Policed L p policy
        → policy.enabled ≡ true
        → BaseAt dirfd (ready p policy) (some base) q
        → Moved policy (base ++ slash ∷ path) path_max t
        → dirfd' ≡ at_fdcwd
        → b ≡ some t
        → Relative p dirfd path dirfd' b q

  abbrev pub AtArg : Process W → ℤ → PathArg → ℤ → PathArg → Process W → Type 0
  AtArg p dirfd none dirfd' b q = (dirfd' ≡ dirfd) × (b ≡ none) × (q ≡ p)
  AtArg p dirfd (some path) dirfd' b q =
      (is_absolute path ≡ true) × (dirfd' ≡ dirfd) × Absolute p path b q
      ⊎ (is_absolute path ≡ false) × Relative p dirfd path dirfd' b q

  abbrev pub CwdArg : Process W → PathArg → PathArg → Process W → Type 0
  CwdArg p path b q = AtArg p at_fdcwd path at_fdcwd b q

  -- Two paths of a call that has no descriptor: the one that is rewritten second is so in the process
  -- that the first leaves.
  abbrev pub BothArg : Bool → Process W → PathArg → PathArg → PathArg → PathArg → Process W → Type 0
  BothArg false p old new a b q = (u : Process W) × CwdArg p old a u × CwdArg u new b q
  BothArg true p old new a b q = (u : Process W) × CwdArg p new b u × CwdArg u old a q
