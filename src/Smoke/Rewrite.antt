-- ===== src/Smoke/Rewrite.antt =====
-- smoke/fixture.c, `run_rewrite`.
use Prim.Native.Nat.{bit_or}
use ld_preload.Prelude.{some, none, Bytes, codes}
use ld_preload.Libc.{Call}
use ld_preload.Path.Clean.{path_max}
use ld_preload.Program.{Program, ◌>>=◌, ◌>>◌}
use ld_preload.Smoke.{succeeds, descriptor, make_path}
use ld_preload.Smoke.Environment.{Outside, Frame, o_rdonly, o_directory}
use ld_preload.Smoke.RewriteParts.{
  rewrite_setup, rewrite_open, rewrite_names, rewrite_made, rewrite_symlinks,
}
use ld_preload.Smoke.RewriteChecks.{
  rewrite_times, rewrite_sibling, rewrite_missing, rewrite_modes, rewrite_cwd,
}

module _ {W : Type 0} (o : Outside W) where
  unfoldable pub run_rewrite : Frame → Bytes → Bytes → Bytes → Program W (Unit {0})
  run_rewrite f source_root target_root sibling_root = do
    source_dir ← make_path o path_max source_root (codes "tree")
    source_file ← make_path o path_max source_dir (codes "data.txt")
    source_renamed ← make_path o path_max source_dir (codes "renamed.txt")
    source_link ← make_path o path_max source_dir (codes "hard.txt")
    source_abs_symlink ← make_path o path_max source_dir (codes "abs.lnk")
    source_rel_symlink ← make_path o path_max source_dir (codes "rel.lnk")
    source_abs_symlink_at ← make_path o path_max source_dir (codes "abs-at.lnk")
    source_rel_symlink_at ← make_path o path_max source_dir (codes "rel-at.lnk")
    source_exec ← make_path o path_max source_dir (codes "exec-target")
    source_missing ← make_path o path_max source_dir (codes "missing.txt")
    source_guard ← make_path o path_max source_root (codes "guard.txt")
    source_created_dir_at ← make_path o path_max source_dir (codes "made-at")
    source_remove_at ← make_path o path_max source_dir (codes "remove-at.txt")
    target_dir ← make_path o path_max target_root (codes "tree")
    target_file ← make_path o path_max target_dir (codes "data.txt")
    target_renamed ← make_path o path_max target_dir (codes "renamed.txt")
    target_renamed2 ← make_path o path_max target_dir (codes "renamed2.txt")
    target_link ← make_path o path_max target_dir (codes "hard.txt")
    target_link_at ← make_path o path_max target_dir (codes "hard-at.txt")
    target_exec ← make_path o path_max target_dir (codes "exec-target")
    target_created_dir_at ← make_path o path_max target_dir (codes "made-at")
    target_remove_at ← make_path o path_max target_dir (codes "remove-at.txt")
    sibling_dir ← make_path o path_max sibling_root (codes "tree")
    sibling_file ← make_path o path_max sibling_dir (codes "data.txt")
    sibling_guard ← make_path o path_max sibling_root (codes "guard.txt")
    rewrite_setup o source_exec target_dir target_file target_remove_at sibling_dir sibling_file
        sibling_guard
    rewrite_open o f source_file
    dirfd ←
        descriptor o (Call.open_path (some source_dir) (bit_or o_rdonly o_directory) none)
          (codes "open rewritten dir")
    target_dirfd ←
        descriptor o (Call.open_path (some target_dir) (bit_or o_rdonly o_directory) none)
          (codes "open target dir")
    rewrite_names o f dirfd source_file source_renamed source_link target_renamed target_renamed2
        target_link target_link_at
    rewrite_made o f dirfd target_created_dir_at target_remove_at
    rewrite_symlinks o f dirfd source_renamed source_abs_symlink source_rel_symlink
        source_abs_symlink_at source_rel_symlink_at target_renamed
    rewrite_times o f dirfd target_renamed
    rewrite_sibling o f sibling_file
    rewrite_missing o f dirfd source_guard source_missing
    rewrite_modes o f dirfd source_dir source_renamed target_renamed
    rewrite_cwd o f source_dir source_exec
    succeeds o (Call.close target_dirfd) (codes "close target dir")
    succeeds o (Call.close dirfd) (codes "close rewritten dir")
