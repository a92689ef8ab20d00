-- ===== src/Interpose/Steps.antt =====
-- A process as a sequence of steps: calls of the exported functions, by any thread, and whatever
-- else changes the world between them, such as `setenv`.
use ld_preload.Prelude.{ℕ, ◌≤◌, Option, some, ◌≡◌, ◌∙◌, ap, subst, Bytes, ℤ, ok, Meets, true}
use ld_preload.Interpose.Callers.{CallOk}
use ld_preload.Interpose.Dispatch.{interpose}
use ld_preload.Interpose.Exact.{interpose_exact}
use ld_preload.Interpose.Forwarding.{forward, Forwarded}
use ld_preload.Interpose.Forwards.{interpose-Forwarded}
use ld_preload.Interpose.Redirect.{redirect, Reaches}
use ld_preload.Interpose.WorkingDirectory.{getcwd}
use ld_preload.Interpose.WorkingDirectory.Laws.{CwdResult, getcwd-CwdResult}
use ld_preload.Libc.{Libc, Call}
use ld_preload.Path.Clean.{path_max}
use ld_preload.Process.{Process, M}
use ld_preload.Process.Laws.{IsLibc, IsSound, Keeps, Keeps-refl, Keeps-world, Keeps-trans, Runs}

module _ {W : Type 0} (L : Libc W) where
  pub data Step (p : Process W) : Process W → Type 0 where
    called : (c : Call) {r : ℤ} {q : Process W} → CallOk c → interpose L c p ≡ ok (r, q) → Step p q
    told :
        (capacity size : ℕ) {r : Option Bytes} {q : Process W}
        → size ≤ capacity
        → size ≤ path_max
        → getcwd L (some capacity) size p ≡ ok (r, q)
        → Step p q
    elsewhere : (w : W) → Step p (record p { world = w })

  pub data Steps (p : Process W) : Process W → Type 0 where
    start : Steps p p
    then : {q r : Process W} → Steps p q → Step q r → Steps p r

ends_in :
    {W A : Type 0} (R : A → Process W → Type 0) (m : M W A) (p q : Process W) (r : A)
    → m p ≡ ok (r, q)
    → Runs R m p
    → Keeps p q
ends_in R m p q r e h = (subst (λ o. Meets ⊥ (λ x. Keeps p x.1 × R x.0 x.1) o) e h).0

module _ {W : Type 0} (L : Libc W) (l : IsLibc L) where
  Step-Keeps : {p q : Process W} → Step L p q → IsSound p.rewrite_policy → Keeps p q
  Step-Keeps {p} (called c {r} {q} ok_call e) s =
      ends_in (Forwarded L p c) (interpose L c) p q r e (interpose-Forwarded L l c p s ok_call)
  Step-Keeps {p} (told capacity size {r} {q} fits small e) s =
      ends_in (λ r q. CwdResult L size p r q) (getcwd L (some capacity) size) p q r e
        (getcwd-CwdResult L l capacity size fits small p s)
  Step-Keeps {p} (elsewhere w) s = Keeps-world p w s

  Steps-Keeps : {p q : Process W} → Steps L p q → IsSound p.rewrite_policy → Keeps p q
  Steps-Keeps {p} start s = Keeps-refl p s
  Steps-Keeps (then before step) s =
      let kept = Steps-Keeps before s in Keeps-trans kept (Step-Keeps step kept.sound)

  -- After any sequence of proper calls and of changes to the world, from any thread, an initialised
  -- process has the same policy, and it is sound. From there every proper call of an exported
  -- function but `getcwd` ends as `Forwarded` says of that process, and where its paths are below
  -- PATH_MAX, and absolute where the function resolves relative ones, it is the real call with the
  -- paths that the policy of the start gives.
  pub Steps-interpose :
      {p q : Process W}
      → Steps L p q
      → IsSound p.rewrite_policy
      → p.rewrite_once ≡ true
      → (q.rewrite_policy ≡ p.rewrite_policy)
        × IsSound q.rewrite_policy
        × ((c : Call) → CallOk c → Runs (Forwarded L q c) (interpose L c) q)
        × ((c : Call) → Reaches c → interpose L c q ≡ forward L (redirect p.rewrite_policy c) q)
  Steps-interpose {p} {q} steps s once =
      let kept = Steps-Keeps steps s in
      let same = kept.policy_kept once in
      (
        same.1,
        kept.sound,
        λ c h. interpose-Forwarded L l c q kept.sound h,
        λ c h.
            interpose_exact L q same.0 kept.sound c h ∙ ap (λ x. forward L (redirect x c) q) same.1,
      )
