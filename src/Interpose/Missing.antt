-- ===== src/Interpose/Missing.antt =====
-- Calls whose real function is missing.
use ld_preload.Prelude.{true, false, ◌≡◌, refl, sym, ◌∙◌, ap, ℤ, Outcome, ok, fault, hang, refuse}
use ld_preload.Interpose.Dispatch.{interpose}
use ld_preload.Interpose.Forwarding.{Forwarded}
use ld_preload.Interpose.Forwards.{interpose-Forwarded}
use ld_preload.Interpose.Passes.{Passes}
use ld_preload.Interpose.Callers.{CallOk}
use ld_preload.Libc.{Libc, Call, symbol, enosys}
use ld_preload.Orig.{minus_one}
use ld_preload.Process.{Process, invoke}
use ld_preload.Process.Laws.{IsLibc, IsSound, Runs, Runs-map}
use ld_preload.Process.Once.{require_symbol_missing}

module _ {W : Type 0} {L : Libc W} {p : Process W} where
  -- A call is passed on as one of its own kind.
  Passes-symbol :
      {c passed : Call} {q : Process W} → Passes L p c passed q → symbol passed ≡ symbol c
  Passes-symbol Passes.fxstat = refl
  Passes-symbol (Passes.fxstatat m) = refl
  Passes-symbol (Passes.lxstat m) = refl
  Passes-symbol (Passes.xstat m) = refl
  Passes-symbol (Passes.access m) = refl
  Passes-symbol (Passes.chdir m) = refl
  Passes-symbol (Passes.execve m) = refl
  Passes-symbol (Passes.creat m) = refl
  Passes-symbol (Passes.newfstatat m) = refl
  Passes-symbol (Passes.faccessat m) = refl
  Passes-symbol (Passes.fchmodat m) = refl
  Passes-symbol (Passes.link m) = refl
  Passes-symbol (Passes.linkat u m n) = refl
  Passes-symbol Passes.lseek = refl
  Passes-symbol (Passes.mkdir m) = refl
  Passes-symbol (Passes.mkdirat m) = refl
  Passes-symbol (Passes.open_path m) = refl
  Passes-symbol (Passes.openat m) = refl
  Passes-symbol (Passes.openat2 m) = refl
  Passes-symbol (Passes.euidaccess m) = refl
  Passes-symbol Passes.pread = refl
  Passes-symbol Passes.pwrite = refl
  Passes-symbol (Passes.readlink m) = refl
  Passes-symbol (Passes.readlinkat m) = refl
  Passes-symbol (Passes.rename m) = refl
  Passes-symbol (Passes.renameat u m n) = refl
  Passes-symbol (Passes.renameat2 u m n) = refl
  Passes-symbol (Passes.rmdir m) = refl
  Passes-symbol (Passes.lstat m) = refl
  Passes-symbol (Passes.statx m) = refl
  Passes-symbol (Passes.stat m) = refl
  Passes-symbol (Passes.statfs m) = refl
  Passes-symbol (Passes.symlink u m n) = refl
  Passes-symbol (Passes.symlinkat u m n) = refl
  Passes-symbol (Passes.truncate m) = refl
  Passes-symbol (Passes.unlink m) = refl
  Passes-symbol (Passes.unlinkat m) = refl
  Passes-symbol (Passes.utimensat m) = refl
  Passes-symbol Passes.write = refl
  Passes-symbol Passes.close = refl
  Passes-symbol Passes.fstat = refl
  Passes-symbol Passes.read = refl

-- The answer -1 with ENOSYS as the last that was done to the world.
pub record Fails {W : Type 0} (L : Libc W) (r : ℤ) (q : Process W) : Type 0 where
  pub world : W
  pub minus : r ≡ minus_one
  pub errno : q.world ≡ L.set_errno enosys world

abbrev ok_or : {A : Type 0} → A → Outcome A → A
ok_or d fault = d
ok_or d hang = d
ok_or d refuse = d
ok_or d (ok a) = a

module _ {W : Type 0} (L : Libc W) (l : IsLibc L) where
  Forwarded-Fails :
      (c : Call) (p : Process W) (r : ℤ) (q : Process W)
      → p.resolve_once ≡ true
      → p.real (symbol c) ≡ false
      → Forwarded L p c r q
      → Fails L r q
  Forwarded-Fails c p r q once missing f =
      let (once', same) = f.kept.symbols_kept once in
      let e =
        require_symbol_missing L (symbol f.passed) minus_one (invoke L f.passed) f.before once'
          (ap (f.before.real) (Passes-symbol f.passes) ∙ ap (λ g. g (symbol c)) same ∙ missing) in
      let both = ap (ok_or (r, q)) (sym f.result ∙ e) in
      record {
        world = f.before.world;
        minus = ap (λ a. a.0) both;
        errno = ap (λ a. (a.1).world) both;
      }

  -- In a sound process whose symbols are resolved, and without the real function of the call: given
  -- C strings and a mode where the flags ask for one, the exported function answers -1, and ENOSYS
  -- is the last that it does to the world.
  pub interpose-Fails :
      (c : Call) (p : Process W)
      → IsSound p.rewrite_policy
      → CallOk c
      → p.resolve_once ≡ true
      → p.real (symbol c) ≡ false
      → Runs (Fails L) (interpose L c) p
  interpose-Fails c p s h once missing =
      Runs-map (Forwarded L p c) (Fails L) (interpose L c) p (interpose-Forwarded L l c p s h)
        (λ r q k f. Forwarded-Fails c p r q once missing f)
