-- ===== src/Rewrite/Off.antt =====
-- With rewriting disabled, every argument is passed on as it is, and nothing changes.
use ld_preload.Prelude.{
  ℕ, Bool, true, false, not, none, some, ◌≡◌, inl, inr, refl, ◌∙◌, ap, arith, ℤ, ok, if◌then◌else◌,
  Bool-cases,
}
use ld_preload.Libc.{Libc, PathArg, at_fdcwd}
use ld_preload.Path.Clean.{is_absolute}
use ld_preload.Path.Prefix.{Policy}
use ld_preload.Process.{Process, M, pure, ◌>>=◌, get_rewrite_policy}
use ld_preload.Process.Once.{bind_ok, get_rewrite_policy_again}
use ld_preload.Rewrite.{
  rewrite_absolute_path, rewrite_relative_path_from_dirfd, rewrite_path_argument,
  rewrite_cwd_relative_argument, rewrite_at_argument, at_target,
}
use ld_preload.Rewrite.ArgumentLaws.{at_target-eq-rewrite_at_argument}

-- An initialised process whose policy is disabled.
pub record IsOff {W : Type 0} (p : Process W) : Type 0 where
  pub once : p.rewrite_once ≡ true
  pub off : p.rewrite_policy.enabled ≡ false

if_off :
    {A : Type 0} (enabled : Bool) (m n : A) → enabled ≡ false → (if not enabled then m else n) ≡ m
if_off true m n h = absurd (ground (arith, h))
if_off false m n h = refl

module _ {W : Type 0} (L : Libc W) (p : Process W) (h : IsOff p) (size : ℕ) where
  with_policy_off :
      {A : Type 0} (m : M W A) (n : Policy → M W A)
      → (get_rewrite_policy L >>= λ policy. if not policy.enabled then m else n policy) p ≡ m p
  with_policy_off m n =
      bind_ok (get_rewrite_policy L) _ p (p.rewrite_policy, p) (get_rewrite_policy_again L p h.once)
      ∙ ap (λ (f : M W _). f p) (if_off p.rewrite_policy.enabled m (n p.rewrite_policy) h.off)

  rewrite_absolute_path_off : (path : PathArg) → rewrite_absolute_path L path size p ≡ ok (none, p)
  unfolding rewrite_absolute_path
  rewrite_absolute_path_off none = refl
  rewrite_absolute_path_off (some path) = elim (Bool-cases (is_absolute path)) [
    | inl a ↦ rw a (with_policy_off (pure none) _)
    | inr a ↦ rw a refl
  ]

  rewrite_relative_off :
      (dirfd : ℤ) (path : PathArg)
      → rewrite_relative_path_from_dirfd L dirfd path size p ≡ ok (none, p)
  unfolding rewrite_relative_path_from_dirfd
  rewrite_relative_off dirfd none = refl
  rewrite_relative_off dirfd (some path) = elim (Bool-cases (is_absolute path)) [
    | inl a ↦ rw a refl
    | inr a ↦ rw a (with_policy_off (pure none) _)
  ]

  pub rewrite_path_argument_off :
      (path : PathArg) → rewrite_path_argument L path size p ≡ ok (path, p)
  unfolding rewrite_path_argument
  rewrite_path_argument_off none = refl
  rewrite_path_argument_off (some path) =
      bind_ok (rewrite_absolute_path L (some path) size) _ p (none, p)
        (rewrite_absolute_path_off (some path))

  pub rewrite_cwd_relative_argument_off :
      (path : PathArg) → rewrite_cwd_relative_argument L path size p ≡ ok (path, p)
  unfolding rewrite_cwd_relative_argument
  rewrite_cwd_relative_argument_off none = refl
  rewrite_cwd_relative_argument_off (some path) = elim (Bool-cases (is_absolute path)) [
    | inl a ↦ rw a (rewrite_path_argument_off (some path))
    | inr a ↦ rw a (
        bind_ok (rewrite_relative_path_from_dirfd L at_fdcwd (some path) size) _ p (none, p)
          (rewrite_relative_off at_fdcwd (some path)))
  ]

  pub rewrite_at_argument_off :
      (dirfd : ℤ) (path : PathArg) → rewrite_at_argument L dirfd path size p ≡ ok ((dirfd, path), p)
  unfolding rewrite_at_argument
  rewrite_at_argument_off dirfd none = refl
  rewrite_at_argument_off dirfd (some path) = elim (Bool-cases (is_absolute path)) [
    | inl a ↦ rw a (
        bind_ok (rewrite_path_argument L (some path) size) _ p (some path, p)
          (rewrite_path_argument_off (some path)))
    | inr a ↦ rw a (
        bind_ok (rewrite_relative_path_from_dirfd L dirfd (some path) size) _ p (none, p)
          (rewrite_relative_off dirfd (some path)))
  ]

  pub at_target_off :
      (dirfd : ℤ) (path : PathArg) → at_target L dirfd path size p ≡ ok ((dirfd, path), p)
  at_target_off dirfd path =
      ap (λ (f : M W _). f p) (at_target-eq-rewrite_at_argument L dirfd path size)
      ∙ rewrite_at_argument_off dirfd path
