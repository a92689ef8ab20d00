-- ===== src/Interpose/WorkingDirectory/Laws.antt =====
-- The exported `getcwd`: what it tells of the working directory, and where it goes wrong.
use ld_preload.Prelude.{
  ℕ, ◌+◌, ◌≤◌, ◌<◌, true, false, not, Option, some, none, ◌≡◌, ◌⊎◌, inl, inr, refl, sym, ap, ◌∙◌,
  arith, subst, ltb, leb, Bytes, length,
}
use ld_preload.Interpose.WorkingDirectory.{getcwd_finish, getcwd_rewrite, getcwd}
use ld_preload.Libc.{Libc, Symbol, enosys}
use ld_preload.Orig.{orig_getcwd}
use ld_preload.Path.Clean.{path_max}
use ld_preload.Path.Prefix.{Policy, substitute_prefix_reverse}
use ld_preload.Path.Prefix.Laws.{IsMeasured}
use ld_preload.Path.Prefix.Reverse.{substitute_prefix_reverse-Moves}
use ld_preload.Path.Prefix.Substitute.{Moves, LeftAlone}
use ld_preload.Process.{Process, ◌>>=◌, attempt, get_rewrite_policy}
use ld_preload.Process.Laws.{IsLibc, IsSound, Keeps-world, Runs, Runs-bind, Runs-map, Runs-if}
use ld_preload.Process.Once.{
  Runs-pure, Attempted, attempt_lem, Policed, Configured, with_policy, with_symbols,
  get_rewrite_policy_lem, require_symbol_lem,
}

-- The name told for the directory `cwd`: itself, or the one that is rewritten to it.
pub data Told (policy : Policy) (size : ℕ) (cwd : Bytes) (r : Option Bytes) : Type 0 where
  stays :
      LeftAlone policy.enabled policy.to policy.from cwd size
      → r ≡ some cwd
      → Told policy size cwd r
  moves :
      (t : Bytes)
      → policy.enabled ≡ true
      → Moves policy.to policy.from cwd t
      → length t < size
      → r ≡ some t
      → Told policy size cwd r

module _ {W : Type 0} where
  -- The process behind the real `getcwd`.
  abbrev pub asked : Libc W → ℕ → Process W → Process W
  asked L size p = record (with_symbols L p) { world = (L.getcwd size p.world).1 }

  -- What `getcwd` tells with the process `p` at the entry, and the process that it leaves: NULL only
  -- where there is no real function, with ENOSYS, or where that one answers NULL, and else what
  -- becomes of the name that the real function gives.
  pub data CwdResult (L : Libc W) (size : ℕ) (p : Process W) (r : Option Bytes) (q : Process W)
      : Type 0 where
    missing :
        (with_symbols L p).real Symbol.getcwd ≡ false
        → r ≡ none
        → q ≡ record (with_symbols L p) { world = L.set_errno enosys p.world }
        → CwdResult L size p r q
    failed :
        (with_symbols L p).real Symbol.getcwd ≡ true
        → (L.getcwd size p.world).0 ≡ none
        → r ≡ none
        → q ≡ asked L size p
        → CwdResult L size p r q
    named :
        (cwd : Bytes) (policy : Policy)
        → (with_symbols L p).real Symbol.getcwd ≡ true
        → (L.getcwd size p.world).0 ≡ some cwd
        → Policed L (asked L size p) policy
        → Told policy size cwd r
        → q ≡ with_policy L (asked L size p) policy
        → CwdResult L size p r q

  getcwd_finish_lem :
      (capacity size : ℕ) (cwd : Bytes) (r : Option Bytes) (policy : Policy) (p : Process W)
      → IsSound p.rewrite_policy
      → size ≤ capacity
      → Attempted
          (LeftAlone policy.enabled policy.to policy.from cwd size)
          (λ t. (policy.enabled ≡ true) × Moves policy.to policy.from cwd t × (length t < size))
          r
      → Runs (λ r q. (q ≡ p) × Told policy size cwd r) (getcwd_finish (some capacity) size cwd r) p
  unfolding getcwd_finish
  getcwd_finish_lem capacity size cwd none policy p s fits h =
      Runs-pure (λ r q. (q ≡ p) × Told policy size cwd r) (some cwd) p s (refl, stays h refl)
  getcwd_finish_lem capacity size cwd (some t) policy p s fits (on, m, short) =
      Runs-if (λ r q. (q ≡ p) × Told policy size cwd r) (ltb size (length t + 1)) _ _ p
        (λ e. absurd (ground (arith, e, short)))
        (λ e. rw (copy_fits t) (
          Runs-pure (λ r q. (q ≡ p) × Told policy size cwd r) (some t) p s
            (refl, moves t on m short refl)))
    where
      copy_fits : (u : Bytes) → leb (length t + 1) capacity ≡ true
      copy_fits u = ground (arith, short, fits)

module _ {W : Type 0} (L : Libc W) (l : IsLibc L) (capacity size : ℕ) where
  -- What `getcwd` tells, behind a real function that gave a name.
  abbrev Rewritten : Process W → Bytes → Option Bytes → Process W → Type 0
  Rewritten p cwd r q =
      (policy : Policy) × Policed L p policy × Told policy size cwd r × (q ≡ with_policy L p policy)

  reversed_lem :
      (w : W) (cwd : Bytes) (policy : Policy) (q : Process W)
      → size ≤ capacity
      → size ≤ path_max
      → IsSound q.rewrite_policy
      → q.rewrite_policy ≡ policy
      → (L.getcwd size w).0 ≡ some cwd
      → Runs
          (λ r t. (t ≡ q) × Told policy size cwd r)
          (attempt (substitute_prefix_reverse policy (some cwd) path_max size) >>= λ rewritten.
            getcwd_finish (some capacity) size cwd rewritten)
          q
  reversed_lem w cwd policy q fits small sq same found =
      let E = LeftAlone policy.enabled policy.to policy.from cwd size in
      let P = λ (t : Bytes).
        (policy.enabled ≡ true) × Moves policy.to policy.from cwd t × (length t < size) in
      let R = λ (r : Option Bytes) (t : Process W). (t ≡ q) × Told policy size cwd r in
      Runs-bind (λ r t. (t ≡ q) × Attempted E P r) R
        (attempt (substitute_prefix_reverse policy (some cwd) path_max size)) _ q
        (attempt_lem E P (substitute_prefix_reverse policy (some cwd) path_max size) q sq (
          substitute_prefix_reverse-Moves policy cwd path_max size
            (subst IsMeasured same sq.measured) (l.getcwd_text size w cwd found) small))
        (λ r t st k m.
          Runs-map (λ i u. (u ≡ t) × Told policy size cwd i) R
            (getcwd_finish (some capacity) size cwd r) t
            (getcwd_finish_lem capacity size cwd r policy t st fits m.1)
            (λ i u ku h. (h.0 ∙ m.0, h.1)))

  getcwd_rewrite_lem :
      (w : W) (cwd : Bytes) (p : Process W)
      → size ≤ capacity
      → size ≤ path_max
      → IsSound p.rewrite_policy
      → (L.getcwd size w).0 ≡ some cwd
      → Runs (Rewritten p cwd) (getcwd_rewrite L (some capacity) size (some cwd)) p
  unfolding getcwd_rewrite
  getcwd_rewrite_lem w cwd p fits small s found =
      Runs-bind (λ policy q. Configured L p policy q) (Rewritten p cwd) (get_rewrite_policy L) _ p
        (get_rewrite_policy_lem L l p s)
        (λ policy q sq k r.
          Runs-if (Rewritten p cwd) (not policy.enabled) _ _ q
            (λ off.
              Runs-pure (Rewritten p cwd) (some cwd) q sq
                (policy, r.0, stays (LeftAlone.disabled (ground (arith, off))) refl, r.1))
            (λ on.
              Runs-map (λ i t. (t ≡ q) × Told policy size cwd i) (Rewritten p cwd)
                (attempt (substitute_prefix_reverse policy (some cwd) path_max size)
                  >>= λ rewritten. getcwd_finish (some capacity) size cwd rewritten)
                q (reversed_lem w cwd policy q fits small sq (ap (λ x. x.rewrite_policy) r.1) found)
                (λ i t kt h. (policy, r.0, h.1, h.0 ∙ r.1))))

  -- `orig_getcwd` yields what the real function yields in the process at the entry, or NULL.
  abbrev Asked : Process W → Option Bytes → Process W → Type 0
  Asked p o q =
      ((with_symbols L p).real Symbol.getcwd ≡ false)
        × (o ≡ none)
        × (q ≡ record (with_symbols L p) { world = L.set_errno enosys p.world })
      ⊎ ((with_symbols L p).real Symbol.getcwd ≡ true)
        × ((L.getcwd size p.world).0 ≡ o)
        × (q ≡ asked L size p)

  orig_getcwd_lem :
      (p : Process W) → IsSound p.rewrite_policy → Runs (Asked p) (orig_getcwd L size) p
  unfolding orig_getcwd
  orig_getcwd_lem p s =
      require_symbol_lem L Symbol.getcwd none _ (Asked p) p s
        (λ q at sq e. (
          Keeps-world q (L.getcwd size q.world).1 sq,
          inr (
            ap (λ (x : Process W). x.real Symbol.getcwd) (sym at) ∙ e,
            ap (λ (x : Process W). (L.getcwd size x.world).0) (sym at),
            ap {A = Process W} {B = Process W}
                (λ (x : Process W). record x { world = (L.getcwd size x.world).1 }) at,
          ),
        ))
        (λ q at e. inl (
          ap (λ (x : Process W). x.real Symbol.getcwd) (sym at) ∙ e,
          refl,
          ap {A = Process W} {B = Process W}
              (λ (x : Process W). record x { world = L.set_errno enosys x.world }) at,
        ))

  -- With a buffer of at least `size` bytes, and `size` at most PATH_MAX, `getcwd` makes no access
  -- outside an object. It yields NULL only if there is no real function, and sets ENOSYS then, or if
  -- the real function yields NULL in the world at the entry. Else it yields the name that the real
  -- function gives there: as it is if rewriting is disabled, the name is not under `to` or the new
  -- name does not fit `size`, and otherwise with `from` in the place of `to`, by the policy that the
  -- process has, or that the environment gives behind the real function.
  pub getcwd-CwdResult :
      size ≤ capacity
      → size ≤ path_max
      → (p : Process W) → IsSound p.rewrite_policy
      → Runs (λ r q. CwdResult L size p r q) (getcwd L (some capacity) size) p
  unfolding getcwd getcwd_rewrite
  getcwd-CwdResult fits small p s =
      Runs-bind (Asked p) (λ r q. CwdResult L size p r q) (orig_getcwd L size)
        (getcwd_rewrite L (some capacity) size) p (orig_getcwd_lem p s)
        (λ o q sq k h. behind o q sq h)
    where
      behind :
          (o : Option Bytes) (q : Process W)
          → IsSound q.rewrite_policy
          → Asked p o q
          → Runs (λ r q. CwdResult L size p r q) (getcwd_rewrite L (some capacity) size o) q
      behind none q sq (inl (e, n, at)) =
          Runs-pure (λ r q. CwdResult L size p r q) none q sq (missing e refl at)
      behind none q sq (inr (e, n, at)) =
          Runs-pure (λ r q. CwdResult L size p r q) none q sq (failed e n refl at)
      behind (some cwd) q sq (inl (e, n, at)) = absurd (ground (arith, n))
      behind (some cwd) q sq (inr (e, n, at)) =
          Runs-map (Rewritten q cwd) (λ r q. CwdResult L size p r q)
            (getcwd_rewrite L (some capacity) size (some cwd)) q
            (getcwd_rewrite_lem p.world cwd q fits small sq n)
            (λ r t k h.
              named cwd h.0 e n (subst (λ x. Policed L x h.0) at h.1) h.2
                (h.3 ∙ ap (λ x. with_policy L x h.0) at))
