-- ===== src/Interpose/Exact.antt =====
-- The exported functions of an initialised process, one lemma for each way in which they rewrite
-- their paths.
use ld_preload.Prelude.{Bool, some, ◌≡◌, refl, ◌∙◌, true, ℤ, Option, ok, inl, inr, Bool-cases, none}
use ld_preload.Interpose.Dispatch.{interpose}
use ld_preload.Interpose.Forwarding.{forward}
use ld_preload.Interpose.Both.{rewrite_both_exact}
use ld_preload.Interpose.Cwd.{rewrite_both}
use ld_preload.Interpose.Mode.{read_mode_lem}
use ld_preload.Interpose.Pair.{symlink, symlinkat, symlink_target}
use ld_preload.Interpose.Callers.{ModeOk, effective_mode}
use ld_preload.Libc.{Libc, Call, Symbol, PathArg, Word}
use ld_preload.Path.Clean.{path_max, is_absolute}
use ld_preload.Interpose.Redirect.{Reachable, redirect, Reaches}
use ld_preload.Process.{Process, ◌>>=◌, read_mode}
use ld_preload.Process.Laws.{IsSound}
use ld_preload.Process.Once.{bind_ok}
use ld_preload.Orig.{orig_symlink, orig_symlinkat}
use ld_preload.Rewrite.{
  rewrite_path_argument, rewrite_cwd_relative_argument, rewrite_at_argument, at_target,
}
use ld_preload.Rewrite.Exact.{
  sent, IsShort, path_argument_exact, cwd_argument_exact, at_argument_exact, at_target_exact, taken,
}

module _ {W : Type 0} (L : Libc W) (p : Process W) (once : p.rewrite_once ≡ true)
    (s : IsSound p.rewrite_policy) where
  absolute_exact :
      (path : PathArg) (k : PathArg → Call)
      → IsShort path
      → (rewrite_path_argument L path path_max >>= λ b. forward L (k b)) p
        ≡ forward L (k (sent p.rewrite_policy path)) p
  absolute_exact path k h =
      bind_ok (rewrite_path_argument L path path_max) (λ b. forward L (k b)) p _
        (path_argument_exact L p once s path h)

  cwd_exact :
      (path : PathArg) (k : PathArg → Call)
      → Reachable path
      → (rewrite_cwd_relative_argument L path path_max >>= λ b. forward L (k b)) p
        ≡ forward L (k (sent p.rewrite_policy path)) p
  cwd_exact path k h =
      bind_ok (rewrite_cwd_relative_argument L path path_max) (λ b. forward L (k b)) p _
        (cwd_argument_exact L p once s path h.0 h.1)

  at_exact :
      (dirfd : ℤ) (path : PathArg) (k : ℤ → PathArg → Call)
      → Reachable path
      → (at_target L dirfd path path_max >>= λ r. forward L (k r.0 r.1)) p
        ≡ forward L (k dirfd (sent p.rewrite_policy path)) p
  at_exact dirfd path k h =
      bind_ok (at_target L dirfd path path_max) (λ r. forward L (k r.0 r.1)) p _
        (at_target_exact L p once s dirfd path h.0 h.1)

  cwd_pair_exact :
      (right : Bool) (old new : PathArg) (k : PathArg → PathArg → Call)
      → Reachable old
      → Reachable new
      → (rewrite_both L right old new >>= λ r. forward L (k r.0 r.1)) p
        ≡ forward L (k (sent p.rewrite_policy old) (sent p.rewrite_policy new)) p
  cwd_pair_exact right old new k h g =
      bind_ok (rewrite_both L right old new) (λ r. forward L (k r.0 r.1)) p _
        (rewrite_both_exact L p once s right old new h g)

  at_pair_exact :
      (olddirfd : ℤ) (old : PathArg) (newdirfd : ℤ) (new : PathArg)
      (k : ℤ → PathArg → ℤ → PathArg → Call)
      → Reachable old
      → Reachable new
      → (rewrite_at_argument L olddirfd old path_max >>= λ r.
            rewrite_at_argument L newdirfd new path_max >>= λ t. forward L (k r.0 r.1 t.0 t.1))
          p
        ≡ forward L (k olddirfd (sent p.rewrite_policy old) newdirfd (sent p.rewrite_policy new)) p
  at_pair_exact olddirfd old newdirfd new k h g =
      bind_ok (rewrite_at_argument L olddirfd old path_max) _ p _
        (at_argument_exact L p once s olddirfd old h.0 h.1)
      ∙ bind_ok (rewrite_at_argument L newdirfd new path_max)
          (λ t. forward L (k olddirfd (sent p.rewrite_policy old) t.0 t.1)) p _
          (at_argument_exact L p once s newdirfd new g.0 g.1)

  mode_absolute_exact :
      (path : PathArg) (flags : Word) (variadic : Option Word) (k : Word → PathArg → Call)
      → ModeOk flags variadic
      → IsShort path
      → (read_mode flags variadic >>= λ mode.
            rewrite_path_argument L path path_max >>= λ b. forward L (k mode b))
          p
        ≡ forward L (k (effective_mode flags variadic) (sent p.rewrite_policy path)) p
  mode_absolute_exact path flags variadic k m h =
      bind_ok (read_mode flags variadic) _ p (effective_mode flags variadic, p)
        (read_mode_lem flags variadic p m)
      ∙ absolute_exact path (k (effective_mode flags variadic)) h

  mode_at_exact :
      (dirfd : ℤ) (path : PathArg) (flags : Word) (variadic : Option Word)
      (k : Word → ℤ → PathArg → Call)
      → ModeOk flags variadic
      → Reachable path
      → (read_mode flags variadic >>= λ mode.
            at_target L dirfd path path_max >>= λ r. forward L (k mode r.0 r.1))
          p
        ≡ forward L (k (effective_mode flags variadic) dirfd (sent p.rewrite_policy path)) p
  mode_at_exact dirfd path flags variadic k m h =
      bind_ok (read_mode flags variadic) _ p (effective_mode flags variadic, p)
        (read_mode_lem flags variadic p m)
      ∙ at_exact dirfd path (k (effective_mode flags variadic)) h

  symlink_target_exact :
      (target : PathArg)
      → IsShort target
      → symlink_target L target p ≡ ok (sent p.rewrite_policy target, p)
  unfolding symlink_target
  symlink_target_exact none h = refl
  symlink_target_exact (some target) h = elim (Bool-cases (is_absolute target)) [
    | inl a ↦ taken _ _ p a ∙ path_argument_exact L p once s (some target) h
    | inr a ↦ rw a refl
  ]

  symlink_exact :
      (target linkpath : PathArg)
      → IsShort target
      → Reachable linkpath
      → symlink L target linkpath p
        ≡ forward L (redirect p.rewrite_policy (Call.symlink target linkpath)) p
  unfolding symlink orig_symlink
  symlink_exact target linkpath h g =
      bind_ok (symlink_target L target) _ p _ (symlink_target_exact target h)
      ∙ cwd_exact linkpath (Call.symlink (sent p.rewrite_policy target)) g

  symlinkat_exact :
      (target : PathArg) (newdirfd : ℤ) (linkpath : PathArg)
      → IsShort target
      → Reachable linkpath
      → symlinkat L target newdirfd linkpath p
        ≡ forward L (redirect p.rewrite_policy (Call.symlinkat target newdirfd linkpath)) p
  unfolding symlinkat orig_symlinkat
  symlinkat_exact target newdirfd linkpath h g =
      bind_ok (rewrite_at_argument L newdirfd linkpath path_max) _ p _
        (at_argument_exact L p once s newdirfd linkpath g.0 g.1)
      ∙ bind_ok (symlink_target L target)
          (λ b. forward L (Call.symlinkat b newdirfd (sent p.rewrite_policy linkpath))) p _
          (symlink_target_exact target h)

  -- In an initialised process, for arguments below PATH_MAX that are absolute where the wrapper
  -- resolves relative ones, and with the mode that the flags ask for: every exported function but
  -- `getcwd` does what the real call does with each absolute path replaced by its translation under
  -- the policy, and with every other argument as it is.
  pub interpose_exact :
      (c : Call) → Reaches c → interpose L c p ≡ forward L (redirect p.rewrite_policy c) p
  unfolding interpose
  interpose_exact (Call.fxstat ver fd cstat) h = refl
  interpose_exact (Call.fxstatat ver dirfd pathname cstat flags) h =
      at_exact dirfd pathname (λ d b. Call.fxstatat ver d b cstat flags) h
  interpose_exact (Call.lxstat ver pathname cstat) h =
      absolute_exact pathname (λ b. Call.lxstat ver b cstat) h
  interpose_exact (Call.xstat ver pathname cstat) h =
      absolute_exact pathname (λ b. Call.xstat ver b cstat) h
  interpose_exact (Call.access pathname mode) h = cwd_exact pathname (λ b. Call.access b mode) h
  interpose_exact (Call.chdir path) h = cwd_exact path (λ b. Call.chdir b) h
  interpose_exact (Call.execve pathname argv envp) h =
      cwd_exact pathname (λ b. Call.execve b argv envp) h
  interpose_exact (Call.creat pathname mode) h = absolute_exact pathname (λ b. Call.creat b mode) h
  interpose_exact (Call.fstat fd cstat) h = refl
  interpose_exact (Call.newfstatat dirfd pathname statbuf flags) h =
      at_exact dirfd pathname (λ d b. Call.newfstatat d b statbuf flags) h
  interpose_exact (Call.faccessat dirfd pathname mode flags) h =
      at_exact dirfd pathname (λ d b. Call.faccessat d b mode flags) h
  interpose_exact (Call.fchmodat dirfd pathname mode flags) h =
      at_exact dirfd pathname (λ d b. Call.fchmodat d b mode flags) h
  interpose_exact (Call.link oldpath newpath) h =
      cwd_pair_exact (L.right_first Symbol.link) oldpath newpath (λ a b. Call.link a b) h.0 h.1
  interpose_exact (Call.linkat olddirfd oldpath newdirfd newpath flags) h =
      at_pair_exact olddirfd oldpath newdirfd newpath (λ d a e b. Call.linkat d a e b flags) h.0 h.1
  interpose_exact (Call.lseek fd offset whence) h = refl
  interpose_exact (Call.mkdir pathname mode) h = absolute_exact pathname (λ b. Call.mkdir b mode) h
  interpose_exact (Call.mkdirat dirfd pathname mode) h =
      at_exact dirfd pathname (λ d b. Call.mkdirat d b mode) h
  interpose_exact (Call.open_path pathname flags mode) h =
      mode_absolute_exact pathname flags mode (λ m b. Call.open_path b flags (some m)) h.0 h.1
  interpose_exact (Call.openat dirfd pathname flags mode) h =
      mode_at_exact dirfd pathname flags mode (λ m d b. Call.openat d b flags (some m)) h.0 h.1
  interpose_exact (Call.openat2 dirfd pathname how size) h =
      at_exact dirfd pathname (λ d b. Call.openat2 d b how size) h
  interpose_exact (Call.euidaccess pathname mode) h =
      cwd_exact pathname (λ b. Call.euidaccess b mode) h
  interpose_exact (Call.pread fd buf count offset) h = refl
  interpose_exact (Call.pwrite fd buf count offset) h = refl
  interpose_exact (Call.read fd buf count) h = refl
  interpose_exact (Call.readlink pathname buf bufsiz) h =
      absolute_exact pathname (λ b. Call.readlink b buf bufsiz) h
  interpose_exact (Call.readlinkat dirfd pathname buf bufsiz) h =
      at_exact dirfd pathname (λ d b. Call.readlinkat d b buf bufsiz) h
  interpose_exact (Call.rename oldpath newpath) h =
      cwd_pair_exact (L.right_first Symbol.rename) oldpath newpath (λ a b. Call.rename a b) h.0 h.1
  interpose_exact (Call.renameat olddirfd oldpath newdirfd newpath) h =
      at_pair_exact olddirfd oldpath newdirfd newpath (λ d a e b. Call.renameat d a e b) h.0 h.1
  interpose_exact (Call.renameat2 olddirfd oldpath newdirfd newpath flags) h =
      at_pair_exact olddirfd oldpath newdirfd newpath (λ d a e b. Call.renameat2 d a e b flags) h.0
        h.1
  interpose_exact (Call.rmdir pathname) h = absolute_exact pathname (λ b. Call.rmdir b) h
  interpose_exact (Call.lstat pathname cstat) h =
      absolute_exact pathname (λ b. Call.lstat b cstat) h
  interpose_exact (Call.statx dirfd pathname flags mask statxbuf) h =
      at_exact dirfd pathname (λ d b. Call.statx d b flags mask statxbuf) h
  interpose_exact (Call.stat pathname cstat) h = absolute_exact pathname (λ b. Call.stat b cstat) h
  interpose_exact (Call.statfs path buf) h = cwd_exact path (λ b. Call.statfs b buf) h
  interpose_exact (Call.symlinkat target newdirfd linkpath) h =
      symlinkat_exact target newdirfd linkpath h.0 h.1
  interpose_exact (Call.truncate pathname length) h =
      absolute_exact pathname (λ b. Call.truncate b length) h
  interpose_exact (Call.unlink pathname) h = absolute_exact pathname (λ b. Call.unlink b) h
  interpose_exact (Call.unlinkat dirfd pathname flags) h =
      at_exact dirfd pathname (λ d b. Call.unlinkat d b flags) h
  interpose_exact (Call.utimensat dirfd pathname times flags) h =
      at_exact dirfd pathname (λ d b. Call.utimensat d b times flags) h
  interpose_exact (Call.write fd buf count) h = refl
  interpose_exact (Call.close fd) h = refl
  interpose_exact (Call.symlink target linkpath) h = symlink_exact target linkpath h.0 h.1
