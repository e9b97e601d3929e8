-- ===== src/Tunnel/DownloadTests.antt =====
-- The theorem on the download, at a machine that knows whether the one file is there and executable,
-- and how often the network was asked.
use xray_vless_ws_go.Base.{
  ℕ, suc, ◌≡◌, refl, Bool, true, false, ◌++◌, none, Bytes, codes, bytes_eq, ok, err,
}
use xray_vless_ws_go.Base.Script.{Leaves}
use xray_vless_ws_go.Tunnel.Download.{AssetInfo, Machine, current_asset, ensure_binary}
use xray_vless_ws_go.Tunnel.Download.Laws.{IsMachine, ensure_binary-IsExecutable}

abbrev Disk : Type 0
Disk = Bool × ℕ

abbrev machine : Machine Disk
machine = record {
  goos = codes "linux";
  goarch = codes "arm";
  exists = λ path s. s.0;
  chmod = λ path s. (ok tt, (true, s.1));
  create = λ path s. (ok tt, s);
  copy = λ path contents s. (none, s);
  close = λ path s. (none, s);
  new_request = λ url. ok tt;
  fetch = λ url s. (ok (200, codes "ELF"), (s.0, suc s.1));
  gunzip = λ body. err (codes "no archive");
  abs = λ path. ok (codes "/" ++ path);
  base = λ path. path;
  join = λ a b. b;
}

abbrev IsMarked : Bytes → Disk → Type 0
IsMarked path s = s.0 ≡ true

machine-IsMachine : IsMachine machine IsMarked (λ s. s.1)
machine-IsMachine = record {
  chmod_sets = λ path. record { at = λ s u. refl };
  chmod_local = λ path s. refl;
  executable_exists = λ path s x. x;
}

abbrev asset : AssetInfo
asset = record {
  remote_asset = codes "cloudflared-linux-arm";
  local_name = codes "cloudflared";
  is_archive = false;
}

ensure_binary-IsExecutable_example :
    Leaves
      (λ s'.
        IsMarked (codes "cloudflared") s' × ((ensure_binary machine (codes ".") s').1.1 ≡ s'.1))
      (λ s'. Unit)
      (ensure_binary machine (codes ".") (false, 0))
unfolding bytes_eq current_asset
ensure_binary-IsExecutable_example =
    ensure_binary-IsExecutable machine IsMarked (λ s. s.1) (codes ".") asset (false, 0)
      machine-IsMachine refl refl
