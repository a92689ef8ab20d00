-- ===== src/Smoke/Shared.antt =====
-- `run_fd_semantics` in a process that rewrites the source root to the target root.
use ld_preload.Prelude.{
  Bool, true, ◌<◌, none, some, Bytes, ℤ, ◌≡◌, refl, length, ◌++◌, ◌∷◌, ap, sym, codes, IsCString,
  ok, ◌∙◌, int_eq, subst, append_assoc, if◌then◌else◌,
}
use Prim.Native.Nat.{bit_or}
use ld_preload.Interpose.Callers.{ModeOk, effective_mode}
use ld_preload.Interpose.Redirect.{redirect, Reaches}
use ld_preload.Libc.{Libc, Call, Symbol, Word}
use ld_preload.Path.Clean.{path_max, slash}
use ld_preload.Path.Prefix.{Policy}
use ld_preload.Process.{Process}
use ld_preload.Process.Laws.{IsSound}
use ld_preload.Process.Settled.{IsSettled, Available}
use ld_preload.Program.{Program, run}
use ld_preload.Program.Lands.{Lands, exits, Lands-bind, run-Lands}
use ld_preload.Program.Transparent.{IgnoresMode, as_plain}
use ld_preload.Rewrite.Exact.{sent}
use ld_preload.Smoke.{make_path}
use ld_preload.Smoke.Environment.{Outside, Frame, o_rdonly, o_cloexec}
use ld_preload.Smoke.Descriptors.{
  inherit_child, close_child, exec_child, wait_for, run_fd_semantics,
}
use ld_preload.Smoke.Landing.{
  CanWrite, Becomes, call-Lands, asks-Lands, does-Lands, reads-Lands, when-Lands, die_if-Lands,
  succeeds-Lands, counts-Lands, descriptor-Lands, tolerates-Lands, expect_bytes-Lands,
  expect_child_status_zero-Lands, make_path_short, made-Lands, write_file_exact-Lands,
}

abbrev pub tree : Bytes → Bytes
tree root = root ++ slash ∷ codes "tree"

abbrev pub shared : Bytes → Bytes
shared root = tree root ++ slash ∷ codes "shared.txt"

-- A C string that names a path below PATH_MAX.
abbrev pub Fits : Bytes → Type 0
Fits path = IsCString path × (length path < path_max)

-- The policy sends the file below the source root to the one below the target root, and leaves the
-- target tree alone.
pub record SendsTree (policy : Policy) (source_root target_root : Bytes) : Type 0 where
  pub source_fits : Fits (shared source_root)
  pub target_fits : Fits (shared target_root)
  pub tree_fits : Fits (tree target_root)
  pub sends : sent policy (some (shared source_root)) ≡ some (shared target_root)
  pub stays : sent policy (some (shared target_root)) ≡ some (shared target_root)
  pub tree_stays : sent policy (some (tree target_root)) ≡ some (tree target_root)

-- The real functions that the scenario needs.
pub record CanShare (real : Symbol → Bool) : Type 0 where
  pub writes : CanWrite real
  pub mkdir : real Symbol.mkdir ≡ true
  pub open_path : real Symbol.open_path ≡ true
  pub read : real Symbol.read ≡ true
  pub pread : real Symbol.pread ≡ true

module _ {W : Type 0} (o : Outside W) where
  made_shared :
      (root : Bytes)
      → Fits (shared root)
      → make_path o path_max root (codes "tree/shared.txt") ≡ Program.done (shared root)
  made_shared root h =
      make_path_short o path_max root (codes "tree/shared.txt")
        (subst (λ t. length t < path_max) joined h.1)
      ∙ ap (λ t. Program.done t) (sym joined)
    where
      joined : shared root ≡ root ++ slash ∷ codes "tree/shared.txt"
      joined = append_assoc root (slash ∷ codes "tree") (slash ∷ codes "shared.txt")

module _ {W : Type 0} (o : Outside W) (L : Libc W) {real : Symbol → Bool} {policy : Policy}
    (can : CanShare real) where
  unmoved :
      (c : Call) → Reaches c → Available real c → redirect policy c ≡ c → Becomes L real policy c c
  unmoved c h found e = record { reaches = h; found = found; agrees = λ w. ap (λ d. L.call d w) e }

  inherit_child-Lands :
      (f : Frame) (fd : ℤ) → Lands L real policy (inherit_child o f fd) (inherit_child o f fd)
  unfolding inherit_child
  inherit_child-Lands f fd = Lands-bind (call-Lands _ _ (unmoved _ tt can.read refl)) (λ n.
      Lands-bind (when-Lands _ _ _ (exits 1))
        (λ _. Lands-bind (expect_bytes-Lands o _ _ _ _) (λ _. exits 0)))

  close_child-Lands : (fd : ℤ) → Lands L real policy (close_child o fd) (close_child o fd)
  unfolding close_child
  close_child-Lands fd =
      Lands-bind (call-Lands _ _ (unmoved _ tt can.writes.close refl))
        (λ r. exits (if int_eq r (ℤ.pos 0) then 0 else 1))

  exec_child-Lands :
      (argv0 : Bytes) (keep cloexec : ℤ)
      → Lands L real policy (exec_child o argv0 keep cloexec) (exec_child o argv0 keep cloexec)
  unfolding exec_child
  exec_child-Lands argv0 keep cloexec = Lands-bind (asks-Lands _) (λ ended. exits _)

  wait_for-Lands :
      (f : Frame) (child : ℤ) (message label : Bytes)
      → Lands L real policy (wait_for o f child message label) (wait_for o f child message label)
  unfolding wait_for
  wait_for-Lands f child message label = Lands-bind (asks-Lands _) (λ waited.
      Lands-bind (die_if-Lands o _ _)
        (λ _. Lands-bind (reads-Lands _) (λ status. expect_child_status_zero-Lands o _ _)))

module _ {W : Type 0} (o : Outside W) (L : Libc W) (ignores : IgnoresMode L) {real : Symbol → Bool}
    (can : CanShare real) {policy : Policy} (source_root target_root : Bytes)
    (t : SendsTree policy source_root target_root) where
  open_shared :
      (flags : Word)
      → ModeOk flags none
      → Becomes L real policy
          (Call.open_path (some (shared source_root)) flags none)
          (Call.open_path (some (shared target_root)) flags none)
  open_shared flags h = record {
    reaches = (h, t.source_fits);
    found = can.open_path;
    agrees = λ w.
        ap (λ x. L.call (Call.open_path x flags (some (effective_mode flags none))) w) t.sends
        ∙ ignores (Call.open_path (some (shared target_root)) flags none) w h;
  }

  run_fd_semantics-Lands :
      (f : Frame) (argv0 : Bytes)
      → Lands L real policy
          (run_fd_semantics o f argv0 source_root target_root)
          (run_fd_semantics o f argv0 target_root target_root)
  unfolding run_fd_semantics
  run_fd_semantics-Lands f argv0 =
      let tree_made = make_path_short o path_max target_root (codes "tree") t.tree_fits.1 in
      let file_made =
        make_path_short o path_max (tree target_root) (codes "shared.txt") t.target_fits.1 in
      made-Lands o L real policy _ _ tree_made tree_made (
        made-Lands o L real policy _ _ file_made file_made (
          made-Lands o L real policy _ _ (made_shared o source_root t.source_fits)
            (made_shared o target_root t.target_fits)
            (Lands-bind
              (tolerates-Lands o _ _ _ _ (
                unmoved o L can _ t.tree_fits can.mkdir
                  (ap (λ x. Call.mkdir x 0o755) t.tree_stays)))
              (λ _.
                Lands-bind
                  (write_file_exact-Lands o _ _ _ can.writes (
                    unmoved o L can _ t.target_fits can.writes.creat
                      (ap (λ x. Call.creat x 0o644) t.stays)))
                  (λ _.
                    Lands-bind (descriptor-Lands o _ _ _ (open_shared o_rdonly refl)) (λ shared_fd.
                      Lands-bind (asks-Lands _) (λ child_pid. Lands-bind (die_if-Lands o _ _) (λ _.
                        Lands-bind (when-Lands _ _ _ (inherit_child-Lands o L can f shared_fd))
                          (λ _.
                            Lands-bind
                              (succeeds-Lands o _ _ _ (unmoved o L can _ tt can.writes.close refl))
                              (λ _. Lands-bind (wait_for-Lands o L can f _ _ _) (λ _.
                                Lands-bind (descriptor-Lands o _ _ _ (open_shared o_rdonly refl))
                                  (λ shared_fd. Lands-bind (asks-Lands _) (λ child_pid.
                                    Lands-bind (die_if-Lands o _ _) (λ _.
                                      Lands-bind
                                        (when-Lands _ _ _ (close_child-Lands o L can shared_fd))
                                        (λ _. Lands-bind (wait_for-Lands o L can f _ _ _) (λ _.
                                          Lands-bind (does-Lands _) (λ _.
                                            Lands-bind
                                              (counts-Lands o _ _ _ _
                                                (unmoved o L can _ tt can.pread refl))
                                              (λ _. Lands-bind (expect_bytes-Lands o _ _ _ _) (λ _.
                                                Lands-bind
                                                  (descriptor-Lands o _ _ _
                                                    (open_shared o_rdonly refl))
                                                  (λ keep_fd.
                                                    Lands-bind
                                                      (descriptor-Lands o _ _ _ (
                                                        open_shared (bit_or o_rdonly o_cloexec)
                                                          refl))
                                                      (λ cloexec_fd.
                                                        Lands-bind (asks-Lands _) (λ child_pid.
                                                          Lands-bind (die_if-Lands o _ _) (λ _.
                                                            Lands-bind
                                                            (when-Lands _ _ _ (
                                                            exec_child-Lands o L can argv0 keep_fd
                                                            cloexec_fd))
                                                            (λ _.
                                                            Lands-bind
                                                            (wait_for-Lands o L can f _ _ _)
                                                            (λ _.
                                                            Lands-bind
                                                            (succeeds-Lands o _ _ _ (
                                                            unmoved o L can _ tt can.writes.close
                                                            refl))
                                                            (λ _.
                                                            Lands-bind
                                                            (succeeds-Lands o _ _ _ (
                                                            unmoved o L can _ tt can.writes.close
                                                            refl))
                                                            (λ _. succeeds-Lands o _ _ _ (
                                                            unmoved o L can _ tt can.writes.close
                                                            refl))))))))))))))))))))))))))))

module _ {W : Type 0} (o : Outside W) (L : Libc W) where
  -- In a settled process that has the real functions of `CanShare`, and whose policy sends the shared file below the source root to the one below
  -- the target root and leaves the target tree alone, and over a libc whose `open` reads no mode
  -- that the flags do not ask for: the scenario `fd-semantics` ends with the library exactly as,
  -- without it, the scenario ends that is given the target root for both.
  pub run_fd_semantics-eq-target :
      (f : Frame) (argv0 source_root target_root : Bytes) (p : Process W)
      → IgnoresMode L
      → SendsTree p.rewrite_policy source_root target_root
      → IsSettled p
      → CanShare p.real
      → IsSound p.rewrite_policy
      → run L (run_fd_semantics o f argv0 source_root target_root) p
        ≡ ok (as_plain L (run_fd_semantics o f argv0 target_root target_root) p)
  run_fd_semantics-eq-target f argv0 source_root target_root p ignores t h can s =
      run-Lands L p (run_fd_semantics-Lands o L ignores can source_root target_root t f argv0) h s
