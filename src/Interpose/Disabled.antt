-- ===== src/Interpose/Disabled.antt =====
-- The exported functions with rewriting disabled.
use ld_preload.Prelude.{Bool, Option, none, some, ◌≡◌, refl, ◌∙◌, ℤ, ok, inl, inr, Bool-cases}
use ld_preload.Interpose.Dispatch.{interpose}
use ld_preload.Interpose.Forwarding.{forward}
use ld_preload.Interpose.Both.{rewrite_both_off}
use ld_preload.Interpose.Cwd.{rewrite_both}
use ld_preload.Interpose.Mode.{read_mode_lem}
use ld_preload.Interpose.Pair.{symlink, symlinkat, symlink_target}
use ld_preload.Interpose.Callers.{ModeOk, effective_mode}
use ld_preload.Libc.{Libc, Call, Symbol, PathArg, Word}
use ld_preload.Path.Clean.{path_max, is_absolute}
use ld_preload.Process.{Process, ◌>>=◌, read_mode}
use ld_preload.Process.Once.{bind_ok}
use ld_preload.Orig.{orig_symlink, orig_symlinkat}
use ld_preload.Rewrite.{
  rewrite_path_argument, rewrite_cwd_relative_argument, rewrite_at_argument, at_target,
}
use ld_preload.Rewrite.Off.{
  IsOff, rewrite_path_argument_off, rewrite_cwd_relative_argument_off, rewrite_at_argument_off,
  at_target_off,
}

-- What a caller has to provide for the variadic mode.
abbrev pub HasMode : Call → Type 0
HasMode (Call.open_path pathname flags mode) = ModeOk flags mode
HasMode (Call.openat dirfd pathname flags mode) = ModeOk flags mode
HasMode _ = Unit

-- The call with its mode as the wrapper reads it.
abbrev pub settle : Call → Call
settle (Call.open_path pathname flags mode) =
    Call.open_path pathname flags (some (effective_mode flags mode))
settle (Call.openat dirfd pathname flags mode) =
    Call.openat dirfd pathname flags (some (effective_mode flags mode))
settle c = c

module _ {W : Type 0} (L : Libc W) (p : Process W) (off : IsOff p) where
  absolute_off :
      (path : PathArg) (k : PathArg → Call)
      → (rewrite_path_argument L path path_max >>= λ b. forward L (k b)) p ≡ forward L (k path) p
  absolute_off path k =
      bind_ok (rewrite_path_argument L path path_max) (λ b. forward L (k b)) p (path, p)
        (rewrite_path_argument_off L p off path_max path)

  cwd_off :
      (path : PathArg) (k : PathArg → Call)
      → (rewrite_cwd_relative_argument L path path_max >>= λ b. forward L (k b)) p
        ≡ forward L (k path) p
  cwd_off path k =
      bind_ok (rewrite_cwd_relative_argument L path path_max) (λ b. forward L (k b)) p (path, p)
        (rewrite_cwd_relative_argument_off L p off path_max path)

  at_off :
      (dirfd : ℤ) (path : PathArg) (k : ℤ → PathArg → Call)
      → (at_target L dirfd path path_max >>= λ r. forward L (k r.0 r.1)) p
        ≡ forward L (k dirfd path) p
  at_off dirfd path k =
      bind_ok (at_target L dirfd path path_max) (λ r. forward L (k r.0 r.1)) p ((dirfd, path), p)
        (at_target_off L p off path_max dirfd path)

  cwd_pair_off :
      (right : Bool) (old new : PathArg) (k : PathArg → PathArg → Call)
      → (rewrite_both L right old new >>= λ r. forward L (k r.0 r.1)) p ≡ forward L (k old new) p
  cwd_pair_off right old new k =
      bind_ok (rewrite_both L right old new) (λ r. forward L (k r.0 r.1)) p ((old, new), p)
        (rewrite_both_off L p off right old new)

  at_pair_off :
      (olddirfd : ℤ) (old : PathArg) (newdirfd : ℤ) (new : PathArg)
      (k : ℤ → PathArg → ℤ → PathArg → Call)
      → (rewrite_at_argument L olddirfd old path_max >>= λ r.
            rewrite_at_argument L newdirfd new path_max >>= λ t. forward L (k r.0 r.1 t.0 t.1))
          p
        ≡ forward L (k olddirfd old newdirfd new) p
  at_pair_off olddirfd old newdirfd new k =
      bind_ok (rewrite_at_argument L olddirfd old path_max) _ p ((olddirfd, old), p)
        (rewrite_at_argument_off L p off path_max olddirfd old)
      ∙ bind_ok (rewrite_at_argument L newdirfd new path_max)
          (λ t. forward L (k olddirfd old t.0 t.1)) p ((newdirfd, new), p)
          (rewrite_at_argument_off L p off path_max newdirfd new)

  mode_absolute_off :
      (path : PathArg) (flags : Word) (variadic : Option Word) (k : Word → PathArg → Call)
      → ModeOk flags variadic
      → (read_mode flags variadic >>= λ mode.
            rewrite_path_argument L path path_max >>= λ b. forward L (k mode b))
          p
        ≡ forward L (k (effective_mode flags variadic) path) p
  mode_absolute_off path flags variadic k h =
      bind_ok (read_mode flags variadic) _ p (effective_mode flags variadic, p)
        (read_mode_lem flags variadic p h)
      ∙ absolute_off path (k (effective_mode flags variadic))

  mode_at_off :
      (dirfd : ℤ) (path : PathArg) (flags : Word) (variadic : Option Word)
      (k : Word → ℤ → PathArg → Call)
      → ModeOk flags variadic
      → (read_mode flags variadic >>= λ mode.
            at_target L dirfd path path_max >>= λ r. forward L (k mode r.0 r.1))
          p
        ≡ forward L (k (effective_mode flags variadic) dirfd path) p
  mode_at_off dirfd path flags variadic k h =
      bind_ok (read_mode flags variadic) _ p (effective_mode flags variadic, p)
        (read_mode_lem flags variadic p h)
      ∙ at_off dirfd path (k (effective_mode flags variadic))

  symlink_target_off : (target : PathArg) → symlink_target L target p ≡ ok (target, p)
  unfolding symlink_target
  symlink_target_off none = refl
  symlink_target_off (some target) = elim (Bool-cases (is_absolute target)) [
    | inl a ↦ rw a (rewrite_path_argument_off L p off path_max (some target))
    | inr a ↦ rw a refl
  ]

  symlink_off :
      (target linkpath : PathArg)
      → symlink L target linkpath p ≡ forward L (Call.symlink target linkpath) p
  unfolding symlink orig_symlink
  symlink_off target linkpath =
      bind_ok (symlink_target L target) _ p (target, p) (symlink_target_off target)
      ∙ cwd_off linkpath (Call.symlink target)

  symlinkat_off :
      (target : PathArg) (newdirfd : ℤ) (linkpath : PathArg)
      → symlinkat L target newdirfd linkpath p
        ≡ forward L (Call.symlinkat target newdirfd linkpath) p
  unfolding symlinkat orig_symlinkat
  symlinkat_off target newdirfd linkpath =
      bind_ok (rewrite_at_argument L newdirfd linkpath path_max) _ p ((newdirfd, linkpath), p)
        (rewrite_at_argument_off L p off path_max newdirfd linkpath)
      ∙ bind_ok (symlink_target L target) (λ b. forward L (Call.symlinkat b newdirfd linkpath)) p
          (target, p) (symlink_target_off target)

  -- In an initialised process whose policy is disabled, every exported function but `getcwd` does
  -- what the real call does with the very same arguments: `open` and `openat` with the mode that
  -- the flags ask for, if the caller passed it, and with mode 0 else.
  pub interpose_disabled : (c : Call) → HasMode c → interpose L c p ≡ forward L (settle c) p
  unfolding interpose
  interpose_disabled (Call.fxstat ver fd cstat) h = refl
  interpose_disabled (Call.fxstatat ver dirfd pathname cstat flags) h =
      at_off dirfd pathname (λ d b. Call.fxstatat ver d b cstat flags)
  interpose_disabled (Call.lxstat ver pathname cstat) h =
      absolute_off pathname (λ b. Call.lxstat ver b cstat)
  interpose_disabled (Call.xstat ver pathname cstat) h =
      absolute_off pathname (λ b. Call.xstat ver b cstat)
  interpose_disabled (Call.access pathname mode) h = cwd_off pathname (λ b. Call.access b mode)
  interpose_disabled (Call.chdir path) h = cwd_off path (λ b. Call.chdir b)
  interpose_disabled (Call.execve pathname argv envp) h =
      cwd_off pathname (λ b. Call.execve b argv envp)
  interpose_disabled (Call.creat pathname mode) h = absolute_off pathname (λ b. Call.creat b mode)
  interpose_disabled (Call.fstat fd cstat) h = refl
  interpose_disabled (Call.newfstatat dirfd pathname statbuf flags) h =
      at_off dirfd pathname (λ d b. Call.newfstatat d b statbuf flags)
  interpose_disabled (Call.faccessat dirfd pathname mode flags) h =
      at_off dirfd pathname (λ d b. Call.faccessat d b mode flags)
  interpose_disabled (Call.fchmodat dirfd pathname mode flags) h =
      at_off dirfd pathname (λ d b. Call.fchmodat d b mode flags)
  interpose_disabled (Call.link oldpath newpath) h =
      cwd_pair_off (L.right_first Symbol.link) oldpath newpath (λ a b. Call.link a b)
  interpose_disabled (Call.linkat olddirfd oldpath newdirfd newpath flags) h =
      at_pair_off olddirfd oldpath newdirfd newpath (λ d a e b. Call.linkat d a e b flags)
  interpose_disabled (Call.lseek fd offset whence) h = refl
  interpose_disabled (Call.mkdir pathname mode) h = absolute_off pathname (λ b. Call.mkdir b mode)
  interpose_disabled (Call.mkdirat dirfd pathname mode) h =
      at_off dirfd pathname (λ d b. Call.mkdirat d b mode)
  interpose_disabled (Call.open_path pathname flags mode) h =
      mode_absolute_off pathname flags mode (λ m b. Call.open_path b flags (some m)) h
  interpose_disabled (Call.openat dirfd pathname flags mode) h =
      mode_at_off dirfd pathname flags mode (λ m d b. Call.openat d b flags (some m)) h
  interpose_disabled (Call.openat2 dirfd pathname how size) h =
      at_off dirfd pathname (λ d b. Call.openat2 d b how size)
  interpose_disabled (Call.euidaccess pathname mode) h =
      cwd_off pathname (λ b. Call.euidaccess b mode)
  interpose_disabled (Call.pread fd buf count offset) h = refl
  interpose_disabled (Call.pwrite fd buf count offset) h = refl
  interpose_disabled (Call.read fd buf count) h = refl
  interpose_disabled (Call.readlink pathname buf bufsiz) h =
      absolute_off pathname (λ b. Call.readlink b buf bufsiz)
  interpose_disabled (Call.readlinkat dirfd pathname buf bufsiz) h =
      at_off dirfd pathname (λ d b. Call.readlinkat d b buf bufsiz)
  interpose_disabled (Call.rename oldpath newpath) h =
      cwd_pair_off (L.right_first Symbol.rename) oldpath newpath (λ a b. Call.rename a b)
  interpose_disabled (Call.renameat olddirfd oldpath newdirfd newpath) h =
      at_pair_off olddirfd oldpath newdirfd newpath (λ d a e b. Call.renameat d a e b)
  interpose_disabled (Call.renameat2 olddirfd oldpath newdirfd newpath flags) h =
      at_pair_off olddirfd oldpath newdirfd newpath (λ d a e b. Call.renameat2 d a e b flags)
  interpose_disabled (Call.rmdir pathname) h = absolute_off pathname (λ b. Call.rmdir b)
  interpose_disabled (Call.lstat pathname cstat) h = absolute_off pathname (λ b. Call.lstat b cstat)
  interpose_disabled (Call.statx dirfd pathname flags mask statxbuf) h =
      at_off dirfd pathname (λ d b. Call.statx d b flags mask statxbuf)
  interpose_disabled (Call.stat pathname cstat) h = absolute_off pathname (λ b. Call.stat b cstat)
  interpose_disabled (Call.statfs path buf) h = cwd_off path (λ b. Call.statfs b buf)
  interpose_disabled (Call.symlinkat target newdirfd linkpath) h =
      symlinkat_off target newdirfd linkpath
  interpose_disabled (Call.truncate pathname length) h =
      absolute_off pathname (λ b. Call.truncate b length)
  interpose_disabled (Call.unlink pathname) h = absolute_off pathname (λ b. Call.unlink b)
  interpose_disabled (Call.unlinkat dirfd pathname flags) h =
      at_off dirfd pathname (λ d b. Call.unlinkat d b flags)
  interpose_disabled (Call.utimensat dirfd pathname times flags) h =
      at_off dirfd pathname (λ d b. Call.utimensat d b times flags)
  interpose_disabled (Call.write fd buf count) h = refl
  interpose_disabled (Call.close fd) h = refl
  interpose_disabled (Call.symlink target linkpath) h = symlink_off target linkpath
