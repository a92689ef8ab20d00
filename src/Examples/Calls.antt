-- ===== src/Examples/Calls.antt =====
-- The initialisation, the path arguments and whole calls, in the small world.
use ld_preload.Prelude.{
  false, true, some, ◌≡◌, ◌<◌, ◌-◌, arith, Bytes, codes, IsCString, length, ℤ, Meets, ℕ, refl, ok,
}
use ld_preload.Examples.World.{small_libc, small_libc-IsLibc, fresh, settled, from_to-IsSound}
use ld_preload.Interpose.Disabled.{settle, interpose_disabled}
use ld_preload.Interpose.Forwarding.{forward, Forwarded}
use ld_preload.Interpose.Missing.{Fails, interpose-Fails}
use ld_preload.Process.{o_creat, Process, get_rewrite_policy}
use ld_preload.Process.Snapshot.{get_rewrite_policy_snapshot}
use ld_preload.Rewrite.Off.{IsOff}
use ld_preload.Interpose.Dispatch.{interpose}
use ld_preload.Interpose.Forwards.{interpose-Forwarded}
use ld_preload.Libc.{Call}
use ld_preload.Path.Clean.{path_max}
use ld_preload.Policy.{init_rewrite_policy, from_name, to_name}
use ld_preload.Policy.Laws.{PolicyOf, init_rewrite_policy-PolicyOf}
use ld_preload.Process.Laws.{disabled-IsSound, Runs}
use ld_preload.Process.Once.{Configured, get_rewrite_policy_lem}
use ld_preload.Rewrite.{
  rewrite_path_argument, rewrite_at_argument, rewrite_cwd_relative_argument, fd_path, base_of_fd,
  base_of_link,
}
use ld_preload.Rewrite.ArgumentLaws.{rewrite_at_argument_lem, rewrite_cwd_relative_argument_lem}
use ld_preload.Rewrite.BaseLaws.{base_of_fd_named}
use ld_preload.Rewrite.Laws.{rewrite_path_argument_lem}
use ld_preload.Rewrite.Relations.{AbsoluteArg, AtArg, CwdArg}

abbrev file : Bytes
file = codes "/from/x"

abbrev child : Bytes
child = codes "x"

file-IsCString : IsCString file
file-IsCString = ground arith

child-IsCString : IsCString child
child-IsCString = ground arith

abbrev stat_file : Call
stat_file = Call.newfstatat (ℤ.pos 3) (some child) 0 0

interpose-Forwarded_example :
    Runs (Forwarded small_libc fresh stat_file) (interpose small_libc stat_file) fresh
interpose-Forwarded_example =
    interpose-Forwarded small_libc small_libc-IsLibc stat_file fresh disabled-IsSound
      child-IsCString

init_rewrite_policy-PolicyOf_example :
    Meets ⊥
      (PolicyOf (small_libc.getenv 0 from_name) (small_libc.getenv 0 to_name))
      (init_rewrite_policy (small_libc.getenv 0))
init_rewrite_policy-PolicyOf_example = init_rewrite_policy-PolicyOf (small_libc.getenv 0)

get_rewrite_policy_lem_example :
    Runs (λ policy q. Configured small_libc fresh policy q) (get_rewrite_policy small_libc) fresh
get_rewrite_policy_lem_example =
    get_rewrite_policy_lem small_libc small_libc-IsLibc fresh disabled-IsSound

rewrite_path_argument_lem_example :
    Runs
      (λ b q. AbsoluteArg small_libc settled (some file) b q)
      (rewrite_path_argument small_libc (some file) path_max)
      settled
rewrite_path_argument_lem_example =
    rewrite_path_argument_lem small_libc small_libc-IsLibc (some file) settled from_to-IsSound
      file-IsCString

rewrite_at_argument_lem_example :
    Runs
      (λ r q. AtArg small_libc settled (ℤ.pos 3) (some child) r.0 r.1 q)
      (rewrite_at_argument small_libc (ℤ.pos 3) (some child) path_max)
      settled
rewrite_at_argument_lem_example =
    rewrite_at_argument_lem small_libc small_libc-IsLibc (ℤ.pos 3) (some child) settled
      from_to-IsSound child-IsCString

rewrite_cwd_relative_argument_lem_example :
    Runs
      (λ b q. CwdArg small_libc settled (some child) b q)
      (rewrite_cwd_relative_argument small_libc (some child) path_max)
      settled
rewrite_cwd_relative_argument_lem_example =
    rewrite_cwd_relative_argument_lem small_libc small_libc-IsLibc (some child) settled
      from_to-IsSound child-IsCString

base_of_fd_named_example :
    (length (fd_path (ℤ.pos 3)) < 64)
    × (base_of_fd small_libc (ℤ.pos 3) settled
        ≡ base_of_link
            (small_libc.readlink (fd_path (ℤ.pos 3)) (path_max - 1) 0).0
            (record settled {
              world = (small_libc.readlink (fd_path (ℤ.pos 3)) (path_max - 1) 0).1;
            }))
base_of_fd_named_example = base_of_fd_named small_libc (ℤ.pos 3) settled (omega arith) refl refl

abbrev create_file : Call
create_file = Call.openat (ℤ.pos 3) (some child) o_creat (some 0o644)

abbrev unconfigured : Process ℕ
unconfigured = record fresh { rewrite_once = true }

unconfigured-IsOff : IsOff unconfigured
unconfigured-IsOff = record { once = refl; off = refl }

interpose_disabled_example :
    interpose small_libc create_file unconfigured
    ≡ forward small_libc (settle create_file) unconfigured
interpose_disabled_example =
    interpose_disabled small_libc unconfigured unconfigured-IsOff create_file tt

abbrev without_symbols : Process ℕ
without_symbols = record settled { real = λ s. false }

interpose-Fails_example : Runs (Fails small_libc) (interpose small_libc stat_file) without_symbols
interpose-Fails_example =
    interpose-Fails small_libc small_libc-IsLibc stat_file without_symbols from_to-IsSound
      child-IsCString refl refl

get_rewrite_policy_snapshot_example :
    Runs
      (λ policy q.
        get_rewrite_policy small_libc (record q { world = 5 })
        ≡ ok (policy, record q { world = 5 }))
      (get_rewrite_policy small_libc)
      fresh
get_rewrite_policy_snapshot_example =
    get_rewrite_policy_snapshot small_libc small_libc-IsLibc fresh 5 disabled-IsSound
