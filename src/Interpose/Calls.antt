-- ===== src/Interpose/Calls.antt =====
-- The calls of the wrappers, one lemma for each way in which they rewrite their paths.
use ld_preload.Prelude.{Bool, Option, none, some, ◌≡◌, refl, ℤ, ok}
use ld_preload.Interpose.Pair.{symlink, symlinkat, symlink_target}
use ld_preload.Interpose.Both.{rewrite_both_lem}
use ld_preload.Interpose.Cwd.{rewrite_both}
use ld_preload.Interpose.Mode.{read_mode_lem}
use ld_preload.Interpose.Passes.{Passes}
use ld_preload.Interpose.Callers.{ModeOk, effective_mode}
use ld_preload.Libc.{Libc, Call, PathArg, Word}
use ld_preload.Orig.{orig_symlink, orig_symlinkat}
use ld_preload.Path.Clean.{path_max, is_absolute}
use ld_preload.Process.{Process, M, pure, ◌>>=◌, read_mode}
use ld_preload.Process.Laws.{IsLibc, IsSound, Keeps-refl, Runs, Runs-map, Runs-if}
use ld_preload.Process.Once.{Runs-pure}
use ld_preload.Rewrite.{
  rewrite_path_argument, rewrite_cwd_relative_argument, rewrite_at_argument, at_target,
}
use ld_preload.Rewrite.ArgumentLaws.{
  rewrite_at_argument_lem, at_target_lem, rewrite_cwd_relative_argument_lem,
}
use ld_preload.Rewrite.Laws.{PathOk, rewrite_path_argument_lem}
use ld_preload.Rewrite.Relations.{Absolute, AbsoluteArg, AtArg, CwdArg, BothArg}
use ld_preload.Interpose.Forwarding.{
  forward, Forwarded, forward_lem, forward_after, forward_after_two,
}

module _ {W : Type 0} (L : Libc W) (l : IsLibc L) where
  pub plain_call :
      (c : Call) (p : Process W)
      → IsSound p.rewrite_policy
      → Passes L p c c p
      → Runs (Forwarded L p c) (forward L c) p
  plain_call c p s h =
      Runs-map (λ r q. forward L c p ≡ ok (r, q)) (Forwarded L p c) (forward L c) p
        (forward_lem L c p s)
        (λ r q k e. record {
          passed = c;
          before = p;
          passes = h;
          kept = Keeps-refl p s;
          result = e;
        })

  pub absolute_call :
      {c : Call} (path : PathArg) (k : PathArg → Call)
      → ((p : Process W) (b : PathArg) (q : Process W)
          → AbsoluteArg L p path b q
          → Passes L p c (k b) q)
      → (p : Process W) → IsSound p.rewrite_policy
      → PathOk path
      → Runs (Forwarded L p c) (rewrite_path_argument L path path_max >>= λ b. forward L (k b)) p
  absolute_call {c} path k pass p s h =
      forward_after L c (λ b q. AbsoluteArg L p path b q) (rewrite_path_argument L path path_max) k
        p (rewrite_path_argument_lem L l path p s h) (pass p)

  pub cwd_call :
      {c : Call} (path : PathArg) (k : PathArg → Call)
      → ((p : Process W) (b : PathArg) (q : Process W) → CwdArg L p path b q → Passes L p c (k b) q)
      → (p : Process W) → IsSound p.rewrite_policy
      → PathOk path
      → Runs
          (Forwarded L p c)
          (rewrite_cwd_relative_argument L path path_max >>= λ b. forward L (k b))
          p
  cwd_call {c} path k pass p s h =
      forward_after L c (λ b q. CwdArg L p path b q) (rewrite_cwd_relative_argument L path path_max)
        k p (rewrite_cwd_relative_argument_lem L l path p s h) (pass p)

  pub at_call :
      {c : Call} (dirfd : ℤ) (path : PathArg) (k : ℤ → PathArg → Call)
      → ((p : Process W) (d : ℤ) (b : PathArg) (q : Process W)
          → AtArg L p dirfd path d b q
          → Passes L p c (k d b) q)
      → (p : Process W) → IsSound p.rewrite_policy
      → PathOk path
      → Runs (Forwarded L p c) (at_target L dirfd path path_max >>= λ r. forward L (k r.0 r.1)) p
  at_call {c} dirfd path k pass p s h =
      forward_after L c (λ r q. AtArg L p dirfd path r.0 r.1 q) (at_target L dirfd path path_max)
        (λ r. k r.0 r.1) p (at_target_lem L l dirfd path p s h) (λ r q m. pass p r.0 r.1 q m)

  pub cwd_pair_call :
      {c : Call} (right : Bool) (old new : PathArg) (k : PathArg → PathArg → Call)
      → ((p : Process W) (a b : PathArg) (q : Process W)
          → BothArg L right p old new a b q
          → Passes L p c (k a b) q)
      → (p : Process W) → IsSound p.rewrite_policy
      → PathOk old × PathOk new
      → Runs (Forwarded L p c) (rewrite_both L right old new >>= λ r. forward L (k r.0 r.1)) p
  cwd_pair_call {c} right old new k pass p s h =
      forward_after L c (λ r q. BothArg L right p old new r.0 r.1 q) (rewrite_both L right old new)
        (λ r. k r.0 r.1) p (rewrite_both_lem L l right old new p s h) (λ r q m. pass p r.0 r.1 q m)

  pub at_pair_call :
      {c : Call} (olddirfd : ℤ) (old : PathArg) (newdirfd : ℤ) (new : PathArg)
      (k : ℤ → PathArg → ℤ → PathArg → Call)
      → ((p : Process W) (d : ℤ) (a : PathArg) (e : ℤ) (b : PathArg) (u q : Process W)
          → AtArg L p olddirfd old d a u
          → AtArg L u newdirfd new e b q
          → Passes L p c (k d a e b) q)
      → (p : Process W) → IsSound p.rewrite_policy
      → PathOk old × PathOk new
      → Runs
          (Forwarded L p c)
          (rewrite_at_argument L olddirfd old path_max >>= λ r.
            rewrite_at_argument L newdirfd new path_max >>= λ t. forward L (k r.0 r.1 t.0 t.1))
          p
  at_pair_call {c} olddirfd old newdirfd new k pass p s h =
      forward_after_two L c (λ r q. AtArg L p olddirfd old r.0 r.1 q)
        (λ u r q. AtArg L u newdirfd new r.0 r.1 q) (rewrite_at_argument L olddirfd old path_max)
        (rewrite_at_argument L newdirfd new path_max) (λ r t. k r.0 r.1 t.0 t.1) p
        (rewrite_at_argument_lem L l olddirfd old p s h.0)
        (λ q sq. rewrite_at_argument_lem L l newdirfd new q sq h.1)
        (λ a b q t r m. pass p a.0 a.1 b.0 b.1 q t r m)

  mode_call :
      (c : Call) (flags : Word) (variadic : Option Word) (f : Word → M W ℤ) (p : Process W)
      → ModeOk flags variadic
      → Runs (Forwarded L p c) (f (effective_mode flags variadic)) p
      → Runs (Forwarded L p c) (read_mode flags variadic >>= f) p
  mode_call c flags variadic f p h r = rw (read_mode_lem flags variadic p h, ◌>>=◌) r

  pub mode_absolute_call :
      {c : Call} (path : PathArg) (flags : Word) (variadic : Option Word)
      (k : Word → PathArg → Call)
      → ((p : Process W) (b : PathArg) (q : Process W)
          → AbsoluteArg L p path b q
          → Passes L p c (k (effective_mode flags variadic) b) q)
      → (p : Process W) → IsSound p.rewrite_policy
      → PathOk path × ModeOk flags variadic
      → Runs
          (Forwarded L p c)
          (read_mode flags variadic >>= λ mode.
            rewrite_path_argument L path path_max >>= λ b. forward L (k mode b))
          p
  mode_absolute_call {c} path flags variadic k pass p s h =
      mode_call c flags variadic _ p h.1
        (absolute_call path (k (effective_mode flags variadic)) pass p s h.0)

  pub mode_at_call :
      {c : Call} (dirfd : ℤ) (path : PathArg) (flags : Word) (variadic : Option Word)
      (k : Word → ℤ → PathArg → Call)
      → ((p : Process W) (d : ℤ) (b : PathArg) (q : Process W)
          → AtArg L p dirfd path d b q
          → Passes L p c (k (effective_mode flags variadic) d b) q)
      → (p : Process W) → IsSound p.rewrite_policy
      → PathOk path × ModeOk flags variadic
      → Runs
          (Forwarded L p c)
          (read_mode flags variadic >>= λ mode.
            at_target L dirfd path path_max >>= λ r. forward L (k mode r.0 r.1))
          p
  mode_at_call {c} dirfd path flags variadic k pass p s h =
      mode_call c flags variadic _ p h.1
        (at_call dirfd path (k (effective_mode flags variadic)) pass p s h.0)

  symlink_target_lem :
      (target : PathArg) (p : Process W)
      → IsSound p.rewrite_policy
      → PathOk target
      → Runs (λ b q. AbsoluteArg L p target b q) (symlink_target L target) p
  unfolding symlink_target
  symlink_target_lem none p s h = Runs-pure (λ b q. (b ≡ none) × (q ≡ p)) none p s (refl, refl)
  symlink_target_lem (some target) p s h =
      Runs-if (λ b q. Absolute L p target b q) (is_absolute target) _ (pure (some target)) p
        (λ a. rewrite_path_argument_lem L l (some target) p s h)
        (λ a.
          Runs-pure (λ b q. Absolute L p target b q) (some target) p s
            (Absolute.relative a refl refl))

  pub symlink_call :
      (target linkpath : PathArg) (p : Process W)
      → IsSound p.rewrite_policy
      → PathOk target × PathOk linkpath
      → Runs (Forwarded L p (Call.symlink target linkpath)) (symlink L target linkpath) p
  unfolding symlink orig_symlink
  symlink_call target linkpath p s h =
      forward_after_two L (Call.symlink target linkpath) (λ b q. AbsoluteArg L p target b q)
        (λ u b q. CwdArg L u linkpath b q) (symlink_target L target)
        (rewrite_cwd_relative_argument L linkpath path_max) Call.symlink p
        (symlink_target_lem target p s h.0)
        (λ q sq. rewrite_cwd_relative_argument_lem L l linkpath q sq h.1)
        (λ a b q t r m. Passes.symlink q r m)

  pub symlinkat_call :
      (target : PathArg) (newdirfd : ℤ) (linkpath : PathArg) (p : Process W)
      → IsSound p.rewrite_policy
      → PathOk target × PathOk linkpath
      → Runs
          (Forwarded L p (Call.symlinkat target newdirfd linkpath))
          (symlinkat L target newdirfd linkpath)
          p
  unfolding symlinkat orig_symlinkat
  symlinkat_call target newdirfd linkpath p s h =
      forward_after_two L (Call.symlinkat target newdirfd linkpath)
        (λ r q. AtArg L p newdirfd linkpath r.0 r.1 q) (λ u b q. AbsoluteArg L u target b q)
        (rewrite_at_argument L newdirfd linkpath path_max) (symlink_target L target)
        (λ r b. Call.symlinkat b r.0 r.1) p (rewrite_at_argument_lem L l newdirfd linkpath p s h.1)
        (λ q sq. symlink_target_lem target q sq h.0) (λ a b q t r m. Passes.symlinkat q r m)
