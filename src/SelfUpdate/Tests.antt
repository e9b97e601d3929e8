-- ===== src/SelfUpdate/Tests.antt =====
-- The theorems on the update, each at one machine.
use xray_vless_ws_go.Base.{
  ℕ, ◌≡◌, refl, true, false, [], ◌∷◌, none, some, arith, Bytes, codes, bytes_eq, ok, err,
}
use xray_vless_ws_go.Text.Trim.{trim_space}
use xray_vless_ws_go.Text.Split.{split, fields}
use xray_vless_ws_go.Text.Search.{trim_prefix, has_prefix, to_lower}
use xray_vless_ws_go.SelfUpdate.Files.{File, Dir, Os, create_temp}
use xray_vless_ws_go.SelfUpdate.Swap.{preserving, atomic_replace}
use xray_vless_ws_go.SelfUpdate.Swap.Laws.{atomic_replace_err}
use xray_vless_ws_go.SelfUpdate.Sums.{
  Reply, reply, release, no_previous, latest_release, find_asset, first_hash, fetch_expected_hash,
  download_and_verify,
}
use xray_vless_ws_go.SelfUpdate.Update.{Machine, restarted, run, rollback}
use xray_vless_ws_go.SelfUpdate.Update.Safety.{
  Installed, Untouched, Safe, run-Safe, rollback-Installed,
}

abbrev all_well : Os
all_well = record {
  removes_prev = true;
  links = true;
  chmods = true;
  renames = true;
  removes_tmp = true;
}

abbrev no_links : Os
no_links = record all_well { links = false }

abbrev old_file : ℕ → File
old_file i = record { content = i ∷ []; executable = true }

-- The executable is inode 1, and a download waits in inode 2.
abbrev downloaded : Dir
downloaded = record { exec = some 1; prev = none; tmp = some 2; inode = old_file }

abbrev before : Dir
before = record downloaded { tmp = none }

no_links_err : (atomic_replace no_links downloaded).1 ≡ err preserving
unfolding atomic_replace
no_links_err = refl

all_well_ok : (atomic_replace all_well downloaded).1 ≡ ok tt
unfolding atomic_replace
all_well_ok = refl

atomic_replace_err_example :
    ((atomic_replace no_links downloaded).0.exec ≡ some 1)
    × ((atomic_replace no_links downloaded).0.inode 1 ≡ downloaded.inode 1)
atomic_replace_err_example =
    atomic_replace_err no_links downloaded 1 2 preserving refl refl (ground arith) no_links_err

-- A digest that stands in for SHA-256: the content itself.
abbrev digest : Bytes → Bytes
digest content = content

abbrev sums : Reply
sums = reply 200 (codes "ab app\n") true

abbrev asset : Reply
asset = reply 200 (codes "ab") true

verified : (download_and_verify digest sums asset (codes "app") true true downloaded 2).1 ≡ ok tt
unfolding download_and_verify fetch_expected_hash first_hash trim_space split fields trim_prefix
    has_prefix to_lower bytes_eq
verified = refl

abbrev machine : Machine
machine = record {
  os = all_well;
  windows = false;
  finds_executable = true;
  resolves_symlinks = true;
  current_version = codes "v1";
  asset_name = codes "app";
  release = release (codes "v2") (
      record { name = codes "app"; download_url = codes "a" }
      ∷ record { name = codes "SHA256SUMS"; download_url = codes "s" }
      ∷ []);
  creates_temp = true;
  fresh = 2;
  sums = sums;
  asset = asset;
  opens = true;
  reads = true;
  stats_prev = true;
  load_state = some (codes "loaded\n");
  is_root = true;
  restarts = λ command. true;
}

run-Safe_example : Safe digest machine before 1 (run digest machine before)
run-Safe_example = run-Safe digest machine before 1 refl (ground arith)

-- The machine does update, and its service is restarted.
run_restarts : (run digest machine before).1 ≡ ok restarted
unfolding run download_and_verify fetch_expected_hash first_hash trim_space split fields trim_prefix
    has_prefix to_lower bytes_eq latest_release find_asset create_temp atomic_replace
run_restarts = refl

updated : Installed digest machine before 1 (run digest machine before).0
unfolding run download_and_verify fetch_expected_hash first_hash trim_space split fields trim_prefix
    has_prefix to_lower bytes_eq latest_release find_asset create_temp atomic_replace
updated = record {
  new_exec = refl;
  runs = refl;
  verified = refl;
  kept = (refl, refl);
  clean = refl;
}

rollback-Installed_example :
    let d₁ = (rollback machine (run digest machine before).0).0 in
    Untouched before 1 d₁ × (d₁.prev ≡ none) × (rollback machine d₁ ≡ (d₁, err no_previous))
rollback-Installed_example =
    rollback-Installed digest machine machine before (run digest machine before).0 1 updated
      (omega arith) refl refl refl refl refl refl
