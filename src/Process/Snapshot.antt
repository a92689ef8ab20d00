-- ===== src/Process/Snapshot.antt =====
-- The policy behind its first use.
use ld_preload.Prelude.{◌≡◌, ◌∙◌, ap, ok}
use ld_preload.Libc.{Libc}
use ld_preload.Process.{Process, get_rewrite_policy}
use ld_preload.Process.Laws.{IsLibc, IsSound, Runs, Runs-map}
use ld_preload.Process.Once.{Configured, get_rewrite_policy_lem, get_rewrite_policy_again}

-- After `get_rewrite_policy` has run in a sound process, whatever becomes of the world, and of the
-- variables in it, the function changes nothing and yields the same policy.
pub get_rewrite_policy_snapshot :
    {W : Type 0} (L : Libc W)
    → IsLibc L
    → (p : Process W) (w : W) → IsSound p.rewrite_policy
    → Runs
        (λ policy q.
          get_rewrite_policy L (record q { world = w }) ≡ ok (policy, record q { world = w }))
        (get_rewrite_policy L)
        p
get_rewrite_policy_snapshot {W} L l p w s =
    Runs-map (λ policy q. Configured L p policy q)
      (λ policy q.
        get_rewrite_policy L (record q { world = w }) ≡ ok (policy, record q { world = w }))
      (get_rewrite_policy L) p (get_rewrite_policy_lem L l p s)
      (λ policy q k h.
        let later : Process W = record q { world = w } in
        get_rewrite_policy_again L later (ap (λ x. x.rewrite_once) h.1)
        ∙ ap (λ (x : Process W). ok (x.rewrite_policy, later)) h.1)
