-- ===== src/SelfUpdate/Update.antt =====
-- internal/selfupdate/run.go, rollback.go and restart.go. What the system, the network and the
-- service manager answer is the record `Machine`.
pub mod Safety
use xray_vless_ws_go.Base.{
  ℕ, ◌==◌, Bool, true, false, not, List, [], ◌∷◌, Option, none, some, Bytes, codes, bytes_eq,
  if◌then◌else◌, Result, ok, err, ◌≡◌, refl,
}
use xray_vless_ws_go.Text.Trim.{trim_space}
use xray_vless_ws_go.SelfUpdate.Files.{File, Dir, Os, create_temp, remove_tmp}
use xray_vless_ws_go.SelfUpdate.Swap.{SwapError, atomic_replace}
use xray_vless_ws_go.SelfUpdate.Sums.{
  Reply, Asset, ReleaseReply, UpdateError, latest_release, find_asset, download_and_verify,
  windows_unsupported, no_executable, no_real_path, no_asset, no_sums, not_writable, swap_failed,
  restart_failed, no_previous, prev_unreadable, rollback_rename,
}

pub record Machine : Type 0 where
  pub os : Os
  pub windows : Bool
  pub finds_executable : Bool
  pub resolves_symlinks : Bool
  pub current_version : Bytes
  pub asset_name : Bytes
  pub release : ReleaseReply
  pub creates_temp : Bool
  pub fresh : ℕ
  pub sums : Reply
  pub asset : Reply
  pub opens : Bool
  pub reads : Bool
  pub stats_prev : Bool
  -- What `systemctl show -p LoadState` prints, `none` where it fails.
  pub load_state : Option Bytes
  pub is_root : Bool
  pub restarts : List Bytes → Bool

-- How a run ends well.
pub data Done : Type 0 where
  up_to_date : Bytes → Done
  restarted no_unit : Done

unfoldable pub is_unit_present : Option Bytes → Bool
unfolding bytes_eq trim_space
is_unit_present none = false
is_unit_present (some out) = bytes_eq (trim_space out) (codes "loaded")

-- `buildRestartCommand`.
unfoldable pub build_restart_command : Bool → List Bytes
build_restart_command true = codes "systemctl" ∷ codes "restart" ∷ codes "xrayws" ∷ []
build_restart_command false =
    codes "sudo" ∷ codes "systemctl" ∷ codes "restart" ∷ codes "xrayws" ∷ []

-- `restartService` and how `Run` and `Rollback` take its error: no unit is no failure.
unfoldable pub restart : Machine → Result UpdateError Done
unfolding build_restart_command is_unit_present
restart m =
    if not (is_unit_present m.load_state)
    then ok no_unit
    else if m.restarts (build_restart_command m.is_root)
    then ok restarted
    else err restart_failed

unfoldable pub after_swap :
    Machine → Dir × Result SwapError (Unit {0}) → Dir × Result UpdateError Done
unfolding restart
after_swap m (d, err e) = (d, err (swap_failed e))
after_swap m (d, ok _) = (d, restart m)

-- Where the download was refused, os.Remove(tmpPath).
unfoldable pub after_verify :
    Machine → Dir × Result UpdateError (Unit {0}) → Dir × Result UpdateError Done
unfolding after_swap
after_verify m (d, err e) = (remove_tmp m.os d, err e)
after_verify m (d, ok _) = after_swap m (atomic_replace m.os d)

module _ (sha256_hex : Bytes → Bytes) where
  -- From the temporary file on.
  unfoldable pub install : Machine → Dir → Dir × Result UpdateError Done
  unfolding after_verify
  install m d =
      if m.creates_temp
      then after_verify m (
          download_and_verify sha256_hex m.sums m.asset m.asset_name m.opens m.reads
            (create_temp d m.fresh) m.fresh)
      else (d, err not_writable)

  unfoldable pub pick_assets :
      Machine → Dir → Option Asset → Option Asset → Dir × Result UpdateError Done
  unfolding install
  pick_assets m d none sums = (d, err (no_asset m.asset_name))
  pick_assets m d (some asset) none = (d, err no_sums)
  pick_assets m d (some asset) (some sums) = install m d

  -- A build named "dev" is always updated, and one named like the release never.
  unfoldable pub with_release :
      Machine → Dir → Result UpdateError (Bytes × List Asset) → Dir × Result UpdateError Done
  unfolding pick_assets
  with_release m d (err e) = (d, err e)
  with_release m d (ok (tag, assets)) =
      let update =
        pick_assets m d (find_asset m.asset_name assets) (find_asset (codes "SHA256SUMS") assets) in
      if bytes_eq m.current_version (codes "dev")
      then update
      else if bytes_eq m.current_version tag
      then (d, ok (up_to_date m.current_version))
      else update

  unfoldable pub run : Machine → Dir → Dir × Result UpdateError Done
  unfolding with_release
  run m d =
      if m.windows
      then (d, err windows_unsupported)
      else if not m.finds_executable
      then (d, err no_executable)
      else if not m.resolves_symlinks
      then (d, err no_real_path)
      else with_release m d (latest_release m.release)

abbrev leads_to : Option ℕ → ℕ → Bool
leads_to none p = false
leads_to (some e) p = e == p

-- os.Rename(prevPath, execPath), which does nothing where both names lead to one file, and the restart.
unfoldable pub rename_prev : Machine → Dir → ℕ → Dir × Result UpdateError Done
unfolding restart
rename_prev m d p =
    if m.os.renames
    then (if leads_to d.exec p then d else record d { exec = some p; prev = none }, restart m)
    else (d, err rollback_rename)

-- os.Stat(prevPath): a file that does not exist, another error, or the file; then the write check,
-- whose temporary file is gone again.
unfoldable pub with_prev : Machine → Dir → Option ℕ → Dir × Result UpdateError Done
unfolding rename_prev
with_prev m d none = (d, err (if m.stats_prev then no_previous else prev_unreadable))
with_prev m d (some p) =
    if not m.stats_prev
    then (d, err prev_unreadable)
    else if not m.creates_temp
    then (d, err not_writable)
    else rename_prev m d p

unfoldable pub rollback : Machine → Dir → Dir × Result UpdateError Done
unfolding with_prev
rollback m d =
    if m.windows
    then (d, err windows_unsupported)
    else if not m.finds_executable
    then (d, err no_executable)
    else if not m.resolves_symlinks
    then (d, err no_real_path)
    else with_prev m d d.prev
