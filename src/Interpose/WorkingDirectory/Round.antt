-- ===== src/Interpose/WorkingDirectory/Round.antt =====
-- `chdir` into a directory below `from`, and then `getcwd`.
use ld_preload.Prelude.{
  ℕ, ◌+◌, ◌≤◌, ◌<◌, Bool, true, false, not, Option, some, ◌≡◌, refl, ◌∙◌, ap, arith, Bytes,
  IsCString, length, leb, ltb, if◌then◌else◌, ℤ, ok,
}
use ld_preload.Interpose.Dispatch.{interpose}
use ld_preload.Interpose.Exact.{interpose_exact}
use ld_preload.Interpose.Redirect.{redirect}
use ld_preload.Interpose.WorkingDirectory.{getcwd_finish, copy_back, getcwd_rewrite, getcwd}
use ld_preload.Interpose.WorkingDirectory.Off.{orig_getcwd_settled}
use ld_preload.Libc.{Libc, Call, Symbol}
use ld_preload.Orig.{orig_getcwd}
use ld_preload.Path.Clean.{path_max, is_absolute}
use ld_preload.Path.Normal.{clean}
use ld_preload.Path.Normal.NulFree.{clean-IsCString}
use ld_preload.Path.Prefix.{Policy, substitute_prefix_reverse}
use ld_preload.Path.Prefix.Substitute.{Moves, reverse-Moves}
use ld_preload.Path.Translate.{translate-Moved}
use ld_preload.Process.{Process, M, pure, ◌>>=◌, attempt, get_rewrite_policy}
use ld_preload.Process.Laws.{IsSound}
use ld_preload.Process.Once.{bind_ok, get_rewrite_policy_again}
use ld_preload.Process.Settled.{IsSettled, IsSettled-world}
use ld_preload.Program.Transparent.{forward_settled}

-- The directory `path`, below `from`, and the buffer that its name has to fit.
pub record Enters (policy : Policy) (path moved_path : Bytes) (size capacity : ℕ) : Type 0 where
  pub on : policy.enabled ≡ true
  pub absolute : is_absolute path ≡ true
  pub text : IsCString path
  pub short : length path < path_max
  pub moves : Moves policy.from policy.to (clean path) moved_path
  pub moved_short : length moved_path < path_max
  pub named_short : length (clean path) < size
  pub size_small : size ≤ path_max
  pub size_fits : size ≤ capacity

module _ {W : Type 0} (L : Libc W) (size capacity : ℕ) where
  finish_fits :
      (cwd rewritten : Bytes) (p : Process W)
      → length rewritten < size
      → size ≤ capacity
      → getcwd_finish (some capacity) size cwd (some rewritten) p ≡ ok (some rewritten, p)
  unfolding getcwd_finish copy_back
  finish_fits cwd rewritten p short fits = rw (told, whole) refl
    where
      told : ltb size (length rewritten + 1) ≡ false
      told = ground arith

      whole : leb (length rewritten + 1) capacity ≡ true
      whole = ground arith

  rewriting :
      (enabled : Bool) (m n : M W (Option Bytes)) (p : Process W)
      → enabled ≡ true
      → (if not enabled then m else n) p ≡ n p
  rewriting true m n p e = refl
  rewriting false m n p e = absurd (ground (arith, e))

  getcwd_rewrite_moved :
      (path moved_path : Bytes) (p : Process W)
      → p.rewrite_once ≡ true
      → IsSound p.rewrite_policy
      → Enters p.rewrite_policy path moved_path size capacity
      → getcwd_rewrite L (some capacity) size (some moved_path) p ≡ ok (some (clean path), p)
  unfolding getcwd_rewrite
  getcwd_rewrite_moved path moved_path p once s h =
      bind_ok (get_rewrite_policy L) _ p (p.rewrite_policy, p) (get_rewrite_policy_again L p once)
      ∙ rewriting p.rewrite_policy.enabled _ _ p h.on
      ∙ bind_ok
          (attempt (substitute_prefix_reverse p.rewrite_policy (some moved_path) path_max size)) _ p
          (some (clean path), p) (ap (λ o. attempt o p) reversed)
      ∙ finish_fits moved_path (clean path) p h.named_short h.size_fits
    where
      reversed :
          substitute_prefix_reverse p.rewrite_policy (some moved_path) path_max size
          ≡ ok (clean path)
      reversed =
          reverse-Moves p.rewrite_policy (clean path) moved_path path_max size s.measured
            (clean-IsCString path h.text) s.to_text h.named_short h.size_small h.on h.moves

  -- `chdir`, and then `getcwd`.
  abbrev pub enter_and_tell : Bytes → M W (ℤ × Option Bytes)
  enter_and_tell path = do
    r ← interpose L (Call.chdir (some path))
    cwd ← getcwd L (some capacity) size
    pure (r, cwd)

  -- In a settled process that rewrites and has the real `chdir` and `getcwd`, and for an absolute directory whose clean text is `from` or
  -- below it and is short enough, as is its translation: if the real `getcwd` names the directory
  -- that the real `chdir` was given, then `getcwd` after `chdir` tells the clean text of the path
  -- that the program entered, and `chdir` answers as the real one on the translation.
  pub getcwd-chdir :
      (path moved_path : Bytes) (p : Process W)
      → IsSettled p
      → p.real Symbol.chdir ≡ true
      → p.real Symbol.getcwd ≡ true
      → IsSound p.rewrite_policy
      → Enters p.rewrite_policy path moved_path size capacity
      → (L.getcwd size (L.call (Call.chdir (some moved_path)) p.world).1).0 ≡ some moved_path
      → enter_and_tell path p
        ≡ ok (
          ((L.call (Call.chdir (some moved_path)) p.world).0, some (clean path)),
          record p { world = (L.getcwd size (L.call (Call.chdir (some moved_path)) p.world).1).1 },
        )
  unfolding getcwd
  getcwd-chdir path moved_path p h chdir_found getcwd_found s enters names =
      bind_ok (interpose L (Call.chdir (some path))) _ p _ entered
      ∙ bind_ok (getcwd L (some capacity) size) _ there (some (clean path), back)
          (bind_ok (orig_getcwd L size) _ there (some moved_path, back)
              (orig_getcwd_settled L (some capacity) size there (IsSettled-world p _ h) getcwd_found
                ∙ ap (λ o. ok (o, back)) names)
            ∙ getcwd_rewrite_moved path moved_path back h.configured s enters)
    where
      there : Process W
      there = record p { world = (L.call (Call.chdir (some moved_path)) p.world).1 }

      back : Process W
      back = record p { world = (L.getcwd size there.world).1 }

      sent_moved : redirect p.rewrite_policy (Call.chdir (some path)) ≡ Call.chdir (some moved_path)
      sent_moved = rw enters.absolute (
          ap (λ t. Call.chdir (some t))
            (translate-Moved p.rewrite_policy path moved_path
              (enters.on, enters.moves, enters.moved_short)))

      entered :
          interpose L (Call.chdir (some path)) p
          ≡ ok ((L.call (Call.chdir (some moved_path)) p.world).0, there)
      entered =
          interpose_exact L p h.configured s (Call.chdir (some path))
            ((enters.text, enters.short), enters.absolute)
          ∙ forward_settled L (redirect p.rewrite_policy (Call.chdir (some path))) p h chdir_found
          ∙ ap (λ c. ok ((L.call c p.world).0, record p { world = (L.call c p.world).1 }))
              sent_moved
