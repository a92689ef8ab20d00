-- ===== src/Interpose/Both.antt =====
-- The two paths of `link` and `rename`, in either order.
use ld_preload.Prelude.{Bool, true, false, ◌≡◌, ◌∙◌, ok}
use ld_preload.Interpose.Cwd.{rewrite_both}
use ld_preload.Interpose.Redirect.{Reachable}
use ld_preload.Libc.{Libc, PathArg}
use ld_preload.Path.Clean.{path_max}
use ld_preload.Process.{Process, pure}
use ld_preload.Process.Laws.{IsLibc, IsSound, Runs, Runs-bind}
use ld_preload.Process.Once.{Runs-pure, bind_ok}
use ld_preload.Rewrite.{rewrite_cwd_relative_argument}
use ld_preload.Rewrite.ArgumentLaws.{rewrite_cwd_relative_argument_lem}
use ld_preload.Rewrite.Exact.{sent, cwd_argument_exact}
use ld_preload.Rewrite.Laws.{PathOk}
use ld_preload.Rewrite.Off.{IsOff, rewrite_cwd_relative_argument_off}
use ld_preload.Rewrite.Relations.{CwdArg, BothArg}

module _ {W : Type 0} (L : Libc W) (l : IsLibc L) where
  pub rewrite_both_lem :
      (right : Bool) (old new : PathArg) (p : Process W)
      → IsSound p.rewrite_policy
      → PathOk old × PathOk new
      → Runs (λ r q. BothArg L right p old new r.0 r.1 q) (rewrite_both L right old new) p
  unfolding rewrite_both
  rewrite_both_lem false old new p s h =
      let R = λ (r : PathArg × PathArg) (q : Process W). BothArg L false p old new r.0 r.1 q in
      Runs-bind (λ a q. CwdArg L p old a q) R (rewrite_cwd_relative_argument L old path_max) _ p
        (rewrite_cwd_relative_argument_lem L l old p s h.0)
        (λ a u su k m.
          Runs-bind (λ b q. CwdArg L u new b q) R (rewrite_cwd_relative_argument L new path_max) _ u
            (rewrite_cwd_relative_argument_lem L l new u su h.1)
            (λ b q sq k n. Runs-pure R (a, b) q sq (u, m, n)))
  rewrite_both_lem true old new p s h =
      let R = λ (r : PathArg × PathArg) (q : Process W). BothArg L true p old new r.0 r.1 q in
      Runs-bind (λ b q. CwdArg L p new b q) R (rewrite_cwd_relative_argument L new path_max) _ p
        (rewrite_cwd_relative_argument_lem L l new p s h.1)
        (λ b u su k m.
          Runs-bind (λ a q. CwdArg L u old a q) R (rewrite_cwd_relative_argument L old path_max) _ u
            (rewrite_cwd_relative_argument_lem L l old u su h.0)
            (λ a q sq k n. Runs-pure R (a, b) q sq (u, m, n)))

module _ {W : Type 0} (L : Libc W) (p : Process W) (off : IsOff p) where
  pub rewrite_both_off :
      (right : Bool) (old new : PathArg) → rewrite_both L right old new p ≡ ok ((old, new), p)
  unfolding rewrite_both
  rewrite_both_off false old new =
      bind_ok (rewrite_cwd_relative_argument L old path_max) _ p (old, p)
        (rewrite_cwd_relative_argument_off L p off path_max old)
      ∙ bind_ok (rewrite_cwd_relative_argument L new path_max) (λ b. pure (old, b)) p (new, p)
          (rewrite_cwd_relative_argument_off L p off path_max new)
  rewrite_both_off true old new =
      bind_ok (rewrite_cwd_relative_argument L new path_max) _ p (new, p)
        (rewrite_cwd_relative_argument_off L p off path_max new)
      ∙ bind_ok (rewrite_cwd_relative_argument L old path_max) (λ a. pure (a, new)) p (old, p)
          (rewrite_cwd_relative_argument_off L p off path_max old)

module _ {W : Type 0} (L : Libc W) (p : Process W) (once : p.rewrite_once ≡ true)
    (s : IsSound p.rewrite_policy) where
  pub rewrite_both_exact :
      (right : Bool) (old new : PathArg)
      → Reachable old
      → Reachable new
      → rewrite_both L right old new p
        ≡ ok ((sent p.rewrite_policy old, sent p.rewrite_policy new), p)
  unfolding rewrite_both
  rewrite_both_exact false old new h g =
      bind_ok (rewrite_cwd_relative_argument L old path_max) _ p _
        (cwd_argument_exact L p once s old h.0 h.1)
      ∙ bind_ok (rewrite_cwd_relative_argument L new path_max)
          (λ b. pure (sent p.rewrite_policy old, b)) p _ (cwd_argument_exact L p once s new g.0 g.1)
  rewrite_both_exact true old new h g =
      bind_ok (rewrite_cwd_relative_argument L new path_max) _ p _
        (cwd_argument_exact L p once s new g.0 g.1)
      ∙ bind_ok (rewrite_cwd_relative_argument L old path_max)
          (λ a. pure (a, sent p.rewrite_policy new)) p _ (cwd_argument_exact L p once s old h.0 h.1)
