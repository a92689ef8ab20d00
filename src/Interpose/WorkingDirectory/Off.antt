-- ===== src/Interpose/WorkingDirectory/Off.antt =====
-- The exported `getcwd` with rewriting disabled.
use ld_preload.Prelude.{
  ℕ, Bool, true, false, not, Option, some, none, ◌≡◌, refl, ◌∙◌, ap, arith, if◌then◌else◌, Bytes,
  ok,
}
use ld_preload.Interpose.WorkingDirectory.{getcwd_rewrite, getcwd}
use ld_preload.Libc.{Libc, Symbol}
use ld_preload.Orig.{orig_getcwd}
use ld_preload.Process.{Process, M, get_rewrite_policy}
use ld_preload.Process.Once.{get_rewrite_policy_again, bind_ok}
use ld_preload.Process.Settled.{IsSettled, require_symbol_settled}

module _ {W : Type 0} (L : Libc W) (buf : Option ℕ) (size : ℕ) (p : Process W) (h : IsSettled p)
    (found : p.real Symbol.getcwd ≡ true) where
  abbrev after : Process W
  after = record p { world = (L.getcwd size p.world).1 }

  pub orig_getcwd_settled : orig_getcwd L size p ≡ ok ((L.getcwd size p.world).0, after)
  unfolding orig_getcwd
  orig_getcwd_settled = require_symbol_settled L Symbol.getcwd none _ p h found

  if_off :
      {A : Type 0} (enabled : Bool) (m n : A) → enabled ≡ false → (if not enabled then m else n) ≡ m
  if_off true m n e = absurd (ground (arith, e))
  if_off false m n e = refl

  rewrite_off :
      (o : Option Bytes)
      → p.rewrite_policy.enabled ≡ false
      → getcwd_rewrite L buf size o after ≡ ok (o, after)
  unfolding getcwd_rewrite
  rewrite_off none off = refl
  rewrite_off (some cwd) off =
      bind_ok (get_rewrite_policy L) _ after (p.rewrite_policy, after)
        (get_rewrite_policy_again L after h.configured)
      ∙ ap (λ (m : M W (Option Bytes)). m after) (if_off p.rewrite_policy.enabled _ _ off)

  pub getcwd_off :
      p.rewrite_policy.enabled ≡ false → getcwd L buf size p ≡ ok ((L.getcwd size p.world).0, after)
  unfolding getcwd
  getcwd_off off =
      bind_ok (orig_getcwd L size) _ p ((L.getcwd size p.world).0, after) orig_getcwd_settled
      ∙ rewrite_off (L.getcwd size p.world).0 off
