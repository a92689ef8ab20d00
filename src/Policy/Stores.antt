-- ===== src/Policy/Stores.antt =====
-- rtld_linux.c, the assignments of `init_rewrite_policy` one by one, in their order, and what the
-- static policy holds between them.
use ld_preload.Prelude.{
  true, false, not, ◌||◌, List, [], ◌∷◌, ◌++◌, Option, some, ◌≡◌, ◌⊎◌, inl, inr, refl, ◌∙◌, ap, All,
  Bytes, length, Outcome, fault, hang, refuse, ok, ◌>>=◌, refuse_if, Meets,
}
use ld_preload.Path.Clean.{path_max, is_absolute, clean_path_into}
use ld_preload.Path.Prefix.{Policy, or_nil}
use ld_preload.Policy.Laws.{PolicyOf, init_rewrite_policy-PolicyOf}
use ld_preload.Policy.{
  from_name, to_name, disabled_policy, policy_of, is_missing, configure, recover,
  init_rewrite_policy,
}

abbrev Store : Type 0
Store = Policy → Policy

-- The first five assignments.
abbrev pub resets : List Store
resets =
    (λ p. record p { enabled = false })
    ∷ (λ p. record p { from = [] })
    ∷ (λ p. record p { to = [] })
    ∷ (λ p. record p { from_len = 0 })
    ∷ (λ p. record p { to_len = 0 })
    ∷ []

-- The next four: two `memcpy`, and `strlen` of what they left.
abbrev pub fills : Bytes → Bytes → List Store
fills cleaned_from cleaned_to =
    (λ p. record p { from = cleaned_from })
    ∷ (λ p. record p { to = cleaned_to })
    ∷ (λ p. record p { from_len = length p.from })
    ∷ (λ p. record p { to_len = length p.to })
    ∷ []

-- The last one.
abbrev pub enable : Store
enable p = record p { enabled = true }

-- The assignments of a run, by what `configure` comes to.
abbrev pub stores_of : Outcome Policy → Outcome (List Store)
stores_of fault = fault
stores_of hang = hang
stores_of refuse = ok resets
stores_of (ok q) = ok (resets ++ (fills q.from q.to ++ enable ∷ []))

abbrev pub stores : (Bytes → Option Bytes) → Outcome (List Store)
stores getenv = stores_of (configure (getenv from_name) (getenv to_name))

abbrev pub apply : List Store → Policy → Policy
apply [] p = p
apply (s ∷ ss) p = apply ss (s p)

-- `q` is what the policy holds at some moment, from `p` on.
abbrev pub Holds : Policy → List Store → Policy → Type 0
Holds p [] q = q ≡ p
Holds p (s ∷ ss) q = (q ≡ p) ⊎ Holds (s p) ss q

abbrev Quiet : Store → Type 0
Quiet s = (p : Policy) → p.enabled ≡ false → (s p).enabled ≡ false

still_off : {p q : Policy} → q ≡ p → p.enabled ≡ false → q.enabled ≡ false
still_off e off = ap (λ (p : Policy). p.enabled) e ∙ off

off_through :
    (ss : List Store) (p q : Policy)
    → All Quiet ss
    → p.enabled ≡ false
    → Holds p ss q
    → q.enabled ≡ false
off_through [] p q h off e = still_off e off
off_through (s ∷ ss) p q h off (inl e) = still_off e off
off_through (s ∷ ss) p q h off (inr k) = off_through ss (s p) q h.1 (h.0 p off) k

enabled_last :
    (ss : List Store) (p q : Policy)
    → All Quiet ss
    → p.enabled ≡ false
    → Holds p (ss ++ enable ∷ []) q
    → (q.enabled ≡ false) ⊎ (q ≡ apply (ss ++ enable ∷ []) p)
enabled_last [] p q h off (inl e) = inl (still_off e off)
enabled_last [] p q h off (inr e) = inr e
enabled_last (s ∷ ss) p q h off (inl e) = inl (still_off e off)
enabled_last (s ∷ ss) p q h off (inr k) = enabled_last ss (s p) q h.1 (h.0 p off) k

-- A policy that is ready has the lengths of its prefixes.
abbrev Ready : Outcome Policy → Type 0
Ready (ok q) = q ≡ policy_of q.from q.to
Ready _ = Unit

Ready-bind :
    {A : Type 0} (m : Outcome A) (f : A → Outcome Policy)
    → ((a : A) → Ready (f a))
    → Ready (m >>= f)
Ready-bind fault f h = tt
Ready-bind hang f h = tt
Ready-bind refuse f h = tt
Ready-bind (ok a) f h = h a

configure-Ready : (from_env to_env : Option Bytes) → Ready (configure from_env to_env)
unfolding configure
configure-Ready from_env to_env =
    Ready-bind (refuse_if (is_missing from_env || is_missing to_env)) _ (λ _.
      Ready-bind
        (refuse_if (not (is_absolute (or_nil from_env)) || not (is_absolute (or_nil to_env)))) _
        (λ _. Ready-bind (clean_path_into from_env (some path_max) path_max) _ (λ x.
          Ready-bind (clean_path_into to_env (some path_max) path_max) _ (λ y.
            Ready-bind (refuse_if (not (is_absolute x) || not (is_absolute y))) _ (λ _. refl)))))

-- A run of the assignments on a policy `p`.
pub record Stored (getenv : Bytes → Option Bytes) (p : Policy) : Type 0 where
  pub assigned : List Store
  pub listed : stores getenv ≡ ok assigned
  pub complete : init_rewrite_policy getenv ≡ ok (apply assigned p)
  pub published : (q : Policy) → Holds p assigned q → (q.enabled ≡ false) ⊎ (q ≡ apply assigned p)

resets-Quiet : All Quiet resets
resets-Quiet = ((λ p e. refl), ((λ p e. e), ((λ p e. e), ((λ p e. e), ((λ p e. e), tt)))))

fills-Quiet : (f t : Bytes) → All Quiet (resets ++ fills f t)
fills-Quiet f t = (
  (λ p e. refl),
  (
    (λ p e. e),
    (
      (λ p e. e),
      ((λ p e. e), ((λ p e. e), ((λ p e. e), ((λ p e. e), ((λ p e. e), ((λ p e. e), tt)))))),
    ),
  ),
)

-- The assignments, made one by one on a policy that is not enabled, as the zeroed static object is,
-- leave what `init_rewrite_policy` comes to, in every environment. At every moment between them the
-- policy is either not enabled or already the final one.
pub stores-Stored :
    (getenv : Bytes → Option Bytes) (p : Policy) → p.enabled ≡ false → Stored getenv p
unfolding init_rewrite_policy
stores-Stored getenv p off =
    by_outcome (configure (getenv from_name) (getenv to_name)) refl
      (configure-Ready (getenv from_name) (getenv to_name)) (init_rewrite_policy-PolicyOf getenv)
  where
    by_outcome :
        (m : Outcome Policy)
        → configure (getenv from_name) (getenv to_name) ≡ m
        → Ready m
        → Meets ⊥ (PolicyOf (getenv from_name) (getenv to_name)) (init_rewrite_policy getenv)
        → Stored getenv p
    by_outcome fault e r h = absurd (rw e at h)
    by_outcome hang e r h = absurd (rw e at h)
    by_outcome refuse e r h = record {
      assigned = resets;
      listed = ap stores_of e;
      complete = ap (λ m. recover m disabled_policy) e;
      published = λ q k. inl (off_through resets p q resets-Quiet off k);
    }
    by_outcome (ok x) e r h = record {
      assigned = (resets ++ fills x.from x.to) ++ enable ∷ [];
      listed = ap stores_of e;
      complete = ap (λ m. recover m disabled_policy) e ∙ ap (λ q. ok q) r;
      published =
          λ q k. enabled_last (resets ++ fills x.from x.to) p q (fills-Quiet x.from x.to) off k;
    }
