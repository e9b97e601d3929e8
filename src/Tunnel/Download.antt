-- ===== src/Tunnel/Download.antt =====
-- internal/tunnel/download.go. The files, the network and the archive formats are the machine's: an
-- argument with an operation for each call, on a state of its own.
pub mod Laws
use xray_vless_ws_go.Base.{
  ℕ, ◌≡◌, refl, Bool, true, false, not, List, [], ◌∷◌, ◌++◌, Option, none, some, Bytes, codes,
  bytes_eq, concat, Result, ok, err, ◌==◌, if◌then◌else◌,
}
use xray_vless_ws_go.Base.Script.{Script, pure, fail, ◌>>=◌, ◌>>◌, wrap}
use xray_vless_ws_go.Text.Decimal.{pos, format_int}

abbrev pub base_download_url : Bytes
base_download_url =
    codes "https://github.com/cloudflare/cloudflared/releases/download/" ++ codes "2026.3.0"

-- `assetInfo`.
pub record AssetInfo : Type 0 where
  pub remote_asset : Bytes
  pub local_name : Bytes
  pub is_archive : Bool

abbrev plain : Bytes → Bytes → AssetInfo
plain remote name = record { remote_asset = remote; local_name = name; is_archive = false }

abbrev archive : Bytes → AssetInfo
archive remote = record {
  remote_asset = remote;
  local_name = codes "cloudflared";
  is_archive = true;
}

-- `currentAsset`, of runtime.GOOS and runtime.GOARCH.
unfoldable pub current_asset : Bytes → Bytes → Result Bytes AssetInfo
unfolding bytes_eq
current_asset sys arch =
    if bytes_eq sys (codes "windows")
    then ok (
        if bytes_eq arch (codes "amd64")
        then plain (codes "cloudflared-windows-amd64.exe") (codes "cloudflared.exe")
        else plain (codes "cloudflared-windows-386.exe") (codes "cloudflared.exe"))
    else if bytes_eq sys (codes "linux")
    then ok (
        plain
          (if bytes_eq arch (codes "arm64")
            then codes "cloudflared-linux-arm64"
            else if bytes_eq arch (codes "arm")
            then codes "cloudflared-linux-arm"
            else if bytes_eq arch (codes "amd64")
            then codes "cloudflared-linux-amd64"
            else codes "cloudflared-linux-386")
          (codes "cloudflared"))
    else if bytes_eq sys (codes "darwin")
    then ok (
        if bytes_eq arch (codes "arm64")
        then archive (codes "cloudflared-darwin-arm64.tgz")
        else archive (codes "cloudflared-darwin-amd64.tgz"))
    else if bytes_eq sys (codes "android")
    then err (
        codes
          "tunnel: cloudflared cannot run directly on Android/Termux; install via 'pkg install cloudflared' or an Ubuntu proot distro")
    else err (concat (codes "tunnel: unsupported OS/arch " ∷ sys ∷ codes "/" ∷ arch ∷ []))

-- What `tr.Next` yields before the end of the archive: a file with its name, or an error.
pub data Entry : Type 0 where
  file : (name contents : Bytes) → Entry
  broken : Bytes → Entry

pub record Machine (S : Type 0) : Type 0 where
  pub goos : Bytes
  pub goarch : Bytes
  -- Whether os.Stat finds the file.
  pub exists : Bytes → S → Bool
  pub chmod : Bytes → Script S Bytes Unit
  pub create : Bytes → Script S Bytes Unit
  -- `io.Copy` into the created file, and its `Close`.
  pub copy : Bytes → Bytes → S → Option Bytes × S
  pub close : Bytes → S → Option Bytes × S
  -- http.NewRequest, and the status and the body of a GET.
  pub new_request : Bytes → Result Bytes (Unit {0})
  pub fetch : Bytes → Script S Bytes (ℕ × Bytes)
  pub gunzip : Bytes → Result Bytes (List Entry)
  pub abs : Bytes → Result Bytes Bytes
  pub base : Bytes → Bytes
  pub join : Bytes → Bytes → Bytes

abbrev pub text_before : Bytes → Bytes → Bytes
text_before text e = text ++ (codes ": " ++ e)

abbrev first_error :
    Option Bytes → (Bytes → Bytes) → Option Bytes → (Bytes → Bytes) → Result Bytes (Unit {0})
first_error (some e) f closed g = err (f e)
first_error none f (some e) g = err (g e)
first_error none f none g = ok tt

module _ {S : Type 0} (m : Machine S) where
  unfoldable pub ensure_executable : Bytes → Script S Bytes Unit
  unfolding bytes_eq
  ensure_executable path =
      if bytes_eq m.goos (codes "windows")
      then pure tt
      else wrap (text_before (codes "tunnel: chmod " ++ path)) (m.chmod path)

  unfoldable pub abs_path : Bytes → Script S Bytes Bytes
  abs_path p =
      wrap (text_before (codes "tunnel: resolving absolute path for " ++ p)) (λ s. (m.abs p, s))

  -- The copy and the close: both are done, and the error of the copy comes first.
  unfoldable pub copy_and_close :
      Bytes → Bytes → (Bytes → Bytes) → (Bytes → Bytes) → Script S Bytes Unit
  copy_and_close path contents f g s =
      let (copied, s₁) = m.copy path contents s in
      let (closed, s₂) = m.close path s₁ in (first_error copied f closed g, s₂)

  -- The loop over the archive's entries: the first file of the name is written.
  unfoldable pub extract : Bytes → Bytes → List Entry → Script S Bytes Unit
  unfolding copy_and_close
  extract name dest [] =
      fail (concat (codes "binary \"" ∷ name ∷ codes "\" not found in archive" ∷ []))
  extract name dest (broken e ∷ entries) = fail e
  extract name dest (file path contents ∷ entries) =
      let rest = extract name dest entries in
      if not (bytes_eq (m.base path) name)
      then rest
      else m.create dest >> copy_and_close dest contents (λ e. e) (λ e. e)

  unfoldable pub extract_tar_gz_binary : Bytes → Bytes → Bytes → Script S Bytes Unit
  unfolding extract
  extract_tar_gz_binary body name dest = elim (m.gunzip body) [
    | err e ↦ fail e
    | ok entries ↦ extract name dest entries
  ]

  unfoldable pub install : AssetInfo → Bytes → Bytes → Script S Bytes Unit
  unfolding extract_tar_gz_binary copy_and_close
  install asset path body =
      if asset.is_archive
      then wrap (text_before (codes "tunnel: extracting cloudflared archive"))
          (extract_tar_gz_binary body asset.local_name path)
      else (wrap (text_before (codes "tunnel: creating " ++ path)) (m.create path)
          >> copy_and_close path body (text_before (codes "tunnel: writing " ++ path))
              (text_before (codes "tunnel: closing " ++ path)))

  abbrev pub url_of : AssetInfo → Bytes
  url_of asset = base_download_url ++ (b'/' ∷ asset.remote_asset)

  unfoldable pub require_ok : AssetInfo → ℕ × Bytes → Script S Bytes Bytes
  unfolding format_int
  require_ok asset (status, body) =
      if status == 200
      then pure body
      else fail (
          concat (
            codes "tunnel: downloading cloudflared: HTTP "
            ∷ format_int (pos status)
            ∷ codes " for "
            ∷ url_of asset
            ∷ []))

  unfoldable pub download : AssetInfo → Bytes → Script S Bytes Bytes
  unfolding require_ok install ensure_executable abs_path
  download asset path = do
    wrap (text_before (codes "tunnel: building download request"))
        (λ s. (m.new_request (url_of asset), s))
    answer ← wrap (text_before (codes "tunnel: downloading cloudflared")) (m.fetch (url_of asset))
    body ← require_ok asset answer
    install asset path body
    ensure_executable path
    abs_path path

  unfoldable pub ensure_asset : AssetInfo → Bytes → Script S Bytes Bytes
  unfolding download ensure_executable abs_path
  ensure_asset asset path s =
      let found = (ensure_executable path >> abs_path path) s in
      let fresh = download asset path s in if m.exists path s then found else fresh

  unfoldable pub ensure_binary : Bytes → Script S Bytes Bytes
  unfolding current_asset ensure_asset
  ensure_binary dir = elim (current_asset m.goos m.goarch) [
    | err e ↦ fail e
    | ok asset ↦ ensure_asset asset (m.join dir asset.local_name)
  ]
