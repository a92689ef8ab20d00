-- ===== src/Interpose/Forwarding.antt =====
-- A call behind the rewriting of its paths: one lemma for each way in which the wrappers do it.
use ld_preload.Prelude.{◌≡◌, ℤ, ok}
use ld_preload.Interpose.Passes.{Passes}
use ld_preload.Libc.{Libc, Call, symbol}
use ld_preload.Orig.{minus_one}
use ld_preload.Process.{Process, M, ◌>>=◌, require_symbol, invoke}
use ld_preload.Process.Laws.{IsSound, Keeps, Keeps-trans, Runs, Runs-bind, Runs-map, Runs-eq}
use ld_preload.Process.Once.{require_symbol_lem, invoke_lem}

module _ {W : Type 0} (L : Libc W) where
  -- The real call, or ENOSYS.
  abbrev pub forward : Call → M W ℤ
  forward c = require_symbol L (symbol c) minus_one (invoke L c)

  -- The call `c` with the process `p` at the entry is passed on, in the process `before`, and that one
  -- real call, or ENOSYS, gives the result and the last process.
  pub record Forwarded (p : Process W) (c : Call) (r : ℤ) (q : Process W) : Type 0 where
    pub passed : Call
    pub before : Process W
    pub passes : Passes L p c passed before
    pub kept : Keeps p before
    pub result : forward passed before ≡ ok (r, q)

  pub forward_lem :
      (c : Call) (p : Process W)
      → IsSound p.rewrite_policy
      → Runs (λ r q. forward c p ≡ ok (r, q)) (forward c) p
  forward_lem c p s =
      Runs-map (λ r q. Unit {0} × (forward c p ≡ ok (r, q))) (λ r q. forward c p ≡ ok (r, q))
        (forward c) p
        (Runs-eq (λ r q. Unit {0}) (forward c) p
          (require_symbol_lem L (symbol c) minus_one (invoke L c) (λ r q. Unit {0}) p s
            (λ q _ sq e.
              Runs-map (λ r t. r ≡ (L.call c q.world).0) (λ r t. Unit {0}) (invoke L c) q
                (invoke_lem L c q sq) (λ _ _ _ _. tt))
            (λ q _ e. tt)))
        (λ r q k h. h.1)

  -- One rewriting, then the call.
  pub forward_after :
      {A : Type 0} (c : Call) (R : A → Process W → Type 0) (m : M W A) (k : A → Call)
      (p : Process W)
      → Runs R m p
      → ((a : A) (q : Process W) → R a q → Passes L p c (k a) q)
      → Runs (Forwarded p c) (m >>= λ a. forward (k a)) p
  forward_after c R m k p h pass =
      Runs-bind R (Forwarded p c) m (λ a. forward (k a)) p h
        (λ a q sq kept r.
          Runs-map (λ r t. forward (k a) q ≡ ok (r, t)) (Forwarded p c) (forward (k a)) q
            (forward_lem (k a) q sq)
            (λ i t kt e. record {
              passed = k a;
              before = q;
              passes = pass a q r;
              kept = kept;
              result = e;
            }))

  -- Two rewritings, then the call.
  pub forward_after_two :
      {A B : Type 0} (c : Call) (R : A → Process W → Type 0)
      (S : Process W → B → Process W → Type 0) (m : M W A) (n : M W B) (k : A → B → Call)
      (p : Process W)
      → Runs R m p
      → ((q : Process W) → IsSound q.rewrite_policy → Runs (S q) n q)
      → ((a : A) (b : B) (q t : Process W) → R a q → S q b t → Passes L p c (k a b) t)
      → Runs (Forwarded p c) (m >>= λ a. n >>= λ b. forward (k a b)) p
  forward_after_two c R S m n k p h next pass =
      Runs-bind R (Forwarded p c) m _ p h (λ a q sq kept r.
        Runs-bind (S q) (Forwarded p c) n _ q (next q sq) (λ b t st kt s.
          Runs-map (λ i u. forward (k a b) t ≡ ok (i, u)) (Forwarded p c) (forward (k a b)) t
            (forward_lem (k a b) t st)
            (λ i u ku e. record {
              passed = k a b;
              before = t;
              passes = pass a b q t r s;
              kept = Keeps-trans kept kt;
              result = e;
            })))
