-- ===== src/Interpose/WorkingDirectory/Faults.antt =====
-- Where the exported `getcwd` makes an access outside an object.
use ld_preload.Prelude.{
  ℕ, ◌≤◌, ◌<◌, Bool, true, false, not, ◌++◌, Option, some, none, ◌≡◌, refl, ◌∙◌, ap, arith,
  if◌then◌else◌, Bytes, IsCString, length, Outcome, hang, refuse, ok, fault,
}
use ld_preload.Interpose.WorkingDirectory.{at_buf, getcwd_rewrite, getcwd}
use ld_preload.Libc.{Libc, Symbol}
use ld_preload.Orig.{orig_getcwd}
use ld_preload.Path.Clean.{path_max}
use ld_preload.Path.Prefix.{substitute_prefix_reverse}
use ld_preload.Path.Prefix.Laws.{IsUnder}
use ld_preload.Path.Prefix.Reverse.{
  substitute_prefix_reverse_overflow, substitute_prefix_reverse_null,
}
use ld_preload.Process.{Process, M, ◌>>=◌, attempt, get_rewrite_policy}
use ld_preload.Process.Laws.{IsSound}
use ld_preload.Process.Once.{get_rewrite_policy_again, require_symbol_present, bind_ok}

module _ {W : Type 0} (L : Libc W) (size : ℕ) (p : Process W) (cwd : Bytes) where
  -- A process whose library is initialised, with rewriting enabled, and whose real function
  -- succeeds.
  pub record Names : Type 0 where
    pub resolved : p.resolve_once ≡ true
    pub present : p.real Symbol.getcwd ≡ true
    pub configured : p.rewrite_once ≡ true
    pub on : p.rewrite_policy.enabled ≡ true
    pub named_cwd : (L.getcwd size p.world).0 ≡ some cwd

  abbrev after : Process W
  after = record p { world = (L.getcwd size p.world).1 }

  orig_getcwd_named : Names → orig_getcwd L size p ≡ ok (some cwd, after)
  unfolding orig_getcwd
  orig_getcwd_named h =
      require_symbol_present L Symbol.getcwd none _ p h.resolved h.present
      ∙ ap (λ o. ok (o, after)) h.named_cwd

  enabled_faults :
      (enabled : Bool) (rewriting : Outcome Bytes) (unchanged : M W (Option Bytes))
      (k : Option Bytes → M W (Option Bytes)) (q : Process W)
      → enabled ≡ true
      → rewriting ≡ fault
      → (if not enabled then unchanged else attempt rewriting >>= k) q ≡ fault
  enabled_faults true fault unchanged k q on e = refl
  enabled_faults true hang unchanged k q on e = absurd (ground (arith, e))
  enabled_faults true refuse unchanged k q on e = absurd (ground (arith, e))
  enabled_faults true (ok t) unchanged k q on e = absurd (ground (arith, e))
  enabled_faults false m unchanged k q on e = absurd (ground (arith, on))

  getcwd_names :
      (buf : Option ℕ)
      → Names
      → substitute_prefix_reverse p.rewrite_policy (at_buf buf cwd) path_max size ≡ fault
      → getcwd L buf size p ≡ fault
  unfolding getcwd getcwd_rewrite
  getcwd_names buf h e =
      bind_ok (orig_getcwd L size) _ p (some cwd, after) (orig_getcwd_named h)
      ∙ bind_ok (get_rewrite_policy L) _ after (p.rewrite_policy, after)
          (get_rewrite_policy_again L after h.configured)
      ∙ enabled_faults p.rewrite_policy.enabled _ _ _ after h.on e

  -- `getcwd(NULL, size)`, which glibc takes as a request for a buffer, reads through NULL once
  -- rewriting is enabled and the real function has succeeded.
  pub getcwd_null_faults : Names → getcwd L none size p ≡ fault
  getcwd_null_faults h =
      getcwd_names none h (substitute_prefix_reverse_null p.rewrite_policy path_max size h.on)

  -- If the working directory is under `to` and its new name has at least PATH_MAX bytes but fits
  -- `size`, `getcwd` writes beyond its array of PATH_MAX bytes.
  pub getcwd_overflow_faults :
      (capacity : ℕ)
      → Names
      → IsSound p.rewrite_policy
      → IsCString cwd
      → (u : IsUnder p.rewrite_policy.to cwd)
      → path_max ≤ length (p.rewrite_policy.from ++ u.suffix)
      → length (p.rewrite_policy.from ++ u.suffix) < size
      → getcwd L (some capacity) size p ≡ fault
  getcwd_overflow_faults capacity h s text u long fits = getcwd_names (some capacity) h (
      substitute_prefix_reverse_overflow p.rewrite_policy cwd path_max size s.measured text h.on u
        long fits)
