-- ===== src/Rewrite/Exact.antt =====
-- The path arguments of an initialised process, by `translate`.
use ld_preload.Prelude.{
  ◌<◌, Bool, true, false, not, Option, none, some, ◌≡◌, inl, inr, refl, sym, ◌∙◌, ap, arith, Bytes,
  IsCString, length, ℤ, Outcome, ok, if◌then◌else◌, Bool-cases,
}
use ld_preload.Libc.{Libc, PathArg}
use ld_preload.Path.Clean.{path_max, is_absolute}
use ld_preload.Path.Compose.{clean_and_substitute}
use ld_preload.Path.Prefix.{Policy}
use ld_preload.Path.Translate.{
  translate, translate_stays, Translates, refused, filled, moves, clean_and_substitute-Translates,
}
use ld_preload.Process.{Process, M, pure, attempt, get_rewrite_policy}
use ld_preload.Process.Laws.{IsSound}
use ld_preload.Process.Once.{bind_ok, get_rewrite_policy_again}
use ld_preload.Rewrite.{
  or_caller, rewrite_absolute_path, rewrite_path_argument, rewrite_cwd_relative_argument,
  rewrite_at_argument, at_target,
}
use ld_preload.Rewrite.ArgumentLaws.{at_target-eq-rewrite_at_argument}

-- The path that the real function gets: a relative one stays.
abbrev pub sent : Policy → PathArg → PathArg
sent policy none = none
sent policy (some path) = some (if is_absolute path then translate policy path else path)

-- NULL, or a C string below PATH_MAX.
abbrev pub IsShort : PathArg → Type 0
IsShort none = Unit
IsShort (some path) = IsCString path × (length path < path_max)

abbrev pub IsAbsolute : PathArg → Type 0
IsAbsolute none = Unit
IsAbsolute (some path) = is_absolute path ≡ true

pub taken :
    {W A : Type 0} {b : Bool} (m k : M W A) (p : Process W)
    → b ≡ true
    → (if b then m else k) p ≡ m p
taken {b = true} m k p e = refl
taken {b = false} m k p e = absurd (ground (arith, e))

off_moves : (policy : Policy) (path : Bytes) → policy.enabled ≡ false → moves policy path ≡ false
off_moves policy path e = rw e refl

module _ {W : Type 0} (L : Libc W) (p : Process W) (once : p.rewrite_once ≡ true)
    (s : IsSound p.rewrite_policy) where
  record Sends (path : Bytes) (m : Outcome (Option Bytes × Process W)) : Type 0 where
    buf : Option Bytes
    runs : m ≡ ok (buf, p)
    sends : or_caller buf (some path) ≡ some (translate p.rewrite_policy path)

  substituted :
      (path : Bytes) (o : Outcome Bytes)
      → Translates p.rewrite_policy path o
      → Sends path (attempt o p)
  substituted path o (refused e h) = record {
    buf = none;
    runs = rw e refl;
    sends = ap some (sym h);
  }
  substituted path o (filled t e h) = record {
    buf = some t;
    runs = rw e refl;
    sends = ap some (sym h);
  }

  by_policy :
      (path : Bytes) (enabled : Bool) (m : M W (Option Bytes))
      → p.rewrite_policy.enabled ≡ enabled
      → Sends path (m p)
      → Sends path ((if not enabled then pure none else m) p)
  by_policy path true m e h = h
  by_policy path false m e h = record {
    buf = none;
    runs = refl;
    sends =
        ap some (sym (translate_stays p.rewrite_policy path (off_moves p.rewrite_policy path e)));
  }

  absolute_path_exact :
      (path : Bytes)
      → is_absolute path ≡ true
      → IsCString path
      → length path < path_max
      → Sends path (rewrite_absolute_path L (some path) path_max p)
  unfolding rewrite_absolute_path
  absolute_path_exact path a text short =
      let m = attempt (clean_and_substitute p.rewrite_policy path path_max) in
      let h : Sends path ((if not p.rewrite_policy.enabled then pure none else m) p) =
        by_policy path p.rewrite_policy.enabled m refl (
          substituted path _
            (clean_and_substitute-Translates p.rewrite_policy path s.measured text short)) in
      rw a (record {
        buf = h.buf;
        runs =
            bind_ok (get_rewrite_policy L) _ p (p.rewrite_policy, p)
              (get_rewrite_policy_again L p once)
            ∙ h.runs;
        sends = h.sends;
      })

  pub path_argument_exact :
      (path : PathArg)
      → IsShort path
      → rewrite_path_argument L path path_max p ≡ ok (sent p.rewrite_policy path, p)
  unfolding rewrite_path_argument rewrite_absolute_path
  path_argument_exact none h = refl
  path_argument_exact (some path) h = elim (Bool-cases (is_absolute path)) [
    | inl a ↦
        let e = absolute_path_exact path a h.0 h.1 in
        bind_ok (rewrite_absolute_path L (some path) path_max) _ p (e.buf, p) e.runs
        ∙ ap (λ (b : PathArg). ok (b, p)) e.sends
        ∙ rw a refl
    | inr a ↦ rw a refl
  ]

  pub cwd_argument_exact :
      (path : PathArg)
      → IsShort path
      → IsAbsolute path
      → rewrite_cwd_relative_argument L path path_max p ≡ ok (sent p.rewrite_policy path, p)
  unfolding rewrite_cwd_relative_argument
  cwd_argument_exact none h a = refl
  cwd_argument_exact (some path) h a = taken _ _ p a ∙ path_argument_exact (some path) h

  pub at_argument_exact :
      (dirfd : ℤ) (path : PathArg)
      → IsShort path
      → IsAbsolute path
      → rewrite_at_argument L dirfd path path_max p ≡ ok ((dirfd, sent p.rewrite_policy path), p)
  unfolding rewrite_at_argument
  at_argument_exact dirfd none h a = refl
  at_argument_exact dirfd (some path) h a =
      taken _ _ p a
      ∙ bind_ok (rewrite_path_argument L (some path) path_max) (λ t. pure (dirfd, t)) p _
          (path_argument_exact (some path) h)

  pub at_target_exact :
      (dirfd : ℤ) (path : PathArg)
      → IsShort path
      → IsAbsolute path
      → at_target L dirfd path path_max p ≡ ok ((dirfd, sent p.rewrite_policy path), p)
  at_target_exact dirfd path h a =
      ap (λ (f : M W (ℤ × PathArg)). f p) (at_target-eq-rewrite_at_argument L dirfd path path_max)
      ∙ at_argument_exact dirfd path h a
