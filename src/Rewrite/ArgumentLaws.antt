-- ===== src/Rewrite/ArgumentLaws.antt =====
-- What the wrappers pass on for a path argument, by each of the ways in which they rewrite it.
use ld_preload.Prelude.{ℕ, Option, none, some, ◌≡◌, inl, inr, refl, Bytes, ℤ}
use ld_preload.Libc.{Libc, PathArg, at_fdcwd}
use ld_preload.Path.Clean.{path_max, is_absolute}
use ld_preload.Process.{Process}
use ld_preload.Process.Laws.{IsLibc, IsSound, Runs, Runs-bind, Runs-map, Runs-if}
use ld_preload.Process.Once.{Runs-pure}
use ld_preload.Rewrite.{
  or_caller, or_caller_at, rewrite_path_argument, rewrite_relative_path_from_dirfd,
  rewrite_cwd_relative_argument, rewrite_at_argument, at_target,
}
use ld_preload.Rewrite.Laws.{PathOk, rewrite_path_argument_lem}
use ld_preload.Rewrite.RelativeLaws.{relative_lem}
use ld_preload.Rewrite.Relations.{Absolute, Relative, AtArg, CwdArg}

-- The block written out in the `…at` wrappers is `rewrite_at_argument`.
pub at_target-eq-rewrite_at_argument :
    {W : Type 0} (L : Libc W) (dirfd : ℤ) (pathname : PathArg) (buf_len : ℕ)
    → at_target L dirfd pathname buf_len ≡ rewrite_at_argument L dirfd pathname buf_len
unfolding at_target rewrite_at_argument rewrite_relative_path_from_dirfd
at_target-eq-rewrite_at_argument L dirfd none buf_len = refl
at_target-eq-rewrite_at_argument L dirfd (some path) buf_len = refl

module _ {W : Type 0} (L : Libc W) (l : IsLibc L) where
  abbrev AtResult : Process W → ℤ → PathArg → ℤ × PathArg → Process W → Type 0
  AtResult p dirfd path r q = AtArg L p dirfd path r.0 r.1 q

  -- In a sound process and for a C string or NULL, `rewrite_at_argument` ends without a fault, keeps
  -- the static state, and yields the descriptor, the path and the process that `AtArg` allows for
  -- the process at the entry. NULL changes nothing, and an absolute path is as `Absolute` says. For a
  -- relative one, the base is looked up once, in the process at the entry with its policy and its
  -- symbols initialised: the path stays below the descriptor if rewriting is disabled, if there is no
  -- base, or if the path behind the base is left alone, and else it is moved to AT_FDCWD.
  pub rewrite_at_argument_lem :
      (dirfd : ℤ) (path : PathArg) (p : Process W)
      → IsSound p.rewrite_policy
      → PathOk path
      → Runs (AtResult p dirfd path) (rewrite_at_argument L dirfd path path_max) p
  unfolding rewrite_at_argument
  rewrite_at_argument_lem dirfd none p s h =
      Runs-pure (AtResult p dirfd none) (dirfd, none) p s (refl, refl, refl)
  rewrite_at_argument_lem dirfd (some path) p s h =
      Runs-if (AtResult p dirfd (some path)) (is_absolute path) _ _ p
        (λ a.
          Runs-bind (λ b q. Absolute L p path b q) (AtResult p dirfd (some path))
            (rewrite_path_argument L (some path) path_max) _ p
            (rewrite_path_argument_lem L l (some path) p s h)
            (λ b q sq k r.
              Runs-pure (AtResult p dirfd (some path)) (dirfd, b) q sq (inl (a, refl, r))))
        (λ a.
          Runs-bind
            (λ r q.
              Relative L p dirfd path (or_caller_at dirfd (some path) r).0
                (or_caller_at dirfd (some path) r).1 q)
            (AtResult p dirfd (some path))
            (rewrite_relative_path_from_dirfd L dirfd (some path) path_max) _ p
            (relative_lem L l dirfd path p s h a)
            (λ r q sq k m.
              Runs-pure (AtResult p dirfd (some path)) (or_caller_at dirfd (some path) r) q sq
                (inr (a, m))))

  pub at_target_lem :
      (dirfd : ℤ) (path : PathArg) (p : Process W)
      → IsSound p.rewrite_policy
      → PathOk path
      → Runs (AtResult p dirfd path) (at_target L dirfd path path_max) p
  at_target_lem dirfd path p s h =
      rw (at_target-eq-rewrite_at_argument L dirfd path path_max)
        (rewrite_at_argument_lem dirfd path p s h)

  -- The path of a call that has no descriptor is resolved as below AT_FDCWD.
  cwd_of :
      (path : Bytes) (r : Option Bytes) (p q : Process W)
      → Relative L p at_fdcwd path
          (or_caller_at at_fdcwd (some path) r).0
          (or_caller_at at_fdcwd (some path) r).1
          q
      → Relative L p at_fdcwd path at_fdcwd (or_caller r (some path)) q
  cwd_of path none p q m = m
  cwd_of path (some t) p q m = m

  -- In a sound process and for a C string or NULL, `rewrite_cwd_relative_argument` ends without a
  -- fault, keeps the static state, and yields the path and the process that `AtArg` allows for
  -- AT_FDCWD and the process at the entry: a relative path is resolved below the directory that the
  -- real `getcwd` names there, and left alone only if there is none, if rewriting is disabled or for
  -- a reason that `Unmoved` names.
  pub rewrite_cwd_relative_argument_lem :
      (path : PathArg) (p : Process W)
      → IsSound p.rewrite_policy
      → PathOk path
      → Runs (λ b q. CwdArg L p path b q) (rewrite_cwd_relative_argument L path path_max) p
  unfolding rewrite_cwd_relative_argument
  rewrite_cwd_relative_argument_lem none p s h =
      Runs-pure (λ b q. CwdArg L p none b q) none p s (refl, refl, refl)
  rewrite_cwd_relative_argument_lem (some path) p s h =
      Runs-if (λ b q. CwdArg L p (some path) b q) (is_absolute path) _ _ p
        (λ a.
          Runs-map (λ b q. Absolute L p path b q) (λ b q. CwdArg L p (some path) b q)
            (rewrite_path_argument L (some path) path_max) p
            (rewrite_path_argument_lem L l (some path) p s h) (λ b q k r. inl (a, refl, r)))
        (λ a.
          Runs-bind
            (λ r q.
              Relative L p at_fdcwd path (or_caller_at at_fdcwd (some path) r).0
                (or_caller_at at_fdcwd (some path) r).1 q)
            (λ b q. CwdArg L p (some path) b q)
            (rewrite_relative_path_from_dirfd L at_fdcwd (some path) path_max) _ p
            (relative_lem L l at_fdcwd path p s h a)
            (λ r q sq k m.
              Runs-pure (λ b q. CwdArg L p (some path) b q) (or_caller r (some path)) q sq
                (inr (a, cwd_of path r p q m))))
