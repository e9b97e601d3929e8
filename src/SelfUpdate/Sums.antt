-- ===== src/SelfUpdate/Sums.antt =====
-- internal/selfupdate/verify.go and the release lookup of github.go. The answer to an HTTP request
-- is an argument; SHA-256 is one too, as a function to the hexadecimal text.
pub mod Laws
use xray_vless_ws_go.Base.{
  ℕ, Bool, true, false, not, List, [], ◌∷◌, ◌++◌, ◌≡◌, refl, Option, none, some, Bytes, codes,
  bytes_eq, ◌==◌, if◌then◌else◌, Result, ok, err, ◌>>=◌,
}
use xray_vless_ws_go.Text.Trim.{trim_space}
use xray_vless_ws_go.Text.Split.{split, fields}
use xray_vless_ws_go.Text.Search.{trim_prefix, to_lower}
use xray_vless_ws_go.SelfUpdate.Files.{File, Dir, write_inode}
use xray_vless_ws_go.SelfUpdate.Swap.{SwapError}

-- The answer to a request: none, or a status with what came of the body, complete or cut short.
pub data Reply : Type 0 where
  no_reply : Reply
  reply : ℕ → Bytes → Bool → Reply

pub record Asset : Type 0 where
  pub name : Bytes
  pub download_url : Bytes

-- The answer of the releases API, decoded.
pub data ReleaseReply : Type 0 where
  unreachable : ReleaseReply
  bad_status : ℕ → ReleaseReply
  undecodable : ReleaseReply
  release : Bytes → List Asset → ReleaseReply

pub data UpdateError : Type 0 where
  windows_unsupported no_executable no_real_path : UpdateError
  release_request release_json release_no_tag : UpdateError
  release_status : ℕ → UpdateError
  no_asset : Bytes → UpdateError
  no_sums : UpdateError
  not_writable : UpdateError
  sums_request sums_read : UpdateError
  sums_status : ℕ → UpdateError
  no_sums_entry : Bytes → UpdateError
  asset_request asset_write asset_open asset_hash : UpdateError
  asset_status : ℕ → UpdateError
  checksum_mismatch : Bytes → Bytes → UpdateError
  swap_failed : SwapError → UpdateError
  restart_failed : UpdateError
  no_previous prev_unreadable rollback_rename : UpdateError

-- github.go's `latestRelease`; a status that is not 200 is `bad_status`.
unfoldable pub latest_release : ReleaseReply → Result UpdateError (Bytes × List Asset)
latest_release unreachable = err release_request
latest_release (bad_status code) = err (release_status code)
latest_release undecodable = err release_json
latest_release (release tag assets) =
    if bytes_eq tag [] then err release_no_tag else ok (tag, assets)

-- The map of the assets: of two with one name the later one is kept.
unfoldable pub find_asset : Bytes → List Asset → Option Asset
find_asset name [] = none
find_asset name (a ∷ assets) = elim (find_asset name assets) [
  | some later ↦ some later
  | none ↦ if bytes_eq a.name name then some a else none
]

-- `len(fields) != 2` skips the line; a "*" in front of the name is dropped.
unfoldable pub hash_for : Bytes → List Bytes → Option Bytes
hash_for asset_name (hash ∷ name ∷ []) =
    if bytes_eq (trim_prefix name (codes "*")) asset_name then some (to_lower hash) else none
hash_for asset_name _ = none

-- One round of the loop over the lines of SHA256SUMS.
unfoldable pub line_hash : Bytes → Bytes → Option Bytes
unfolding hash_for
line_hash asset_name line₀ =
    let line = trim_space line₀ in
    if bytes_eq line [] then none else hash_for asset_name (fields line)

-- The first line that names the asset decides.
unfoldable pub first_hash : Bytes → List Bytes → Option Bytes
unfolding line_hash
first_hash asset_name [] = none
first_hash asset_name (line ∷ lines) = elim (line_hash asset_name line) [
  | some hash ↦ some hash
  | none ↦ first_hash asset_name lines
]

abbrev or_fail {ℓ} : {A : Type ℓ} → Option A → UpdateError → Result UpdateError A
or_fail none e = err e
or_fail (some a) e = ok a

unfoldable pub fetch_expected_hash : Reply → Bytes → Result UpdateError Bytes
unfolding first_hash
fetch_expected_hash no_reply asset_name = err sums_request
fetch_expected_hash (reply code body complete) asset_name =
    if not (code == 200)
    then err (sums_status code)
    else if not complete
    then err sums_read
    else or_fail (first_hash asset_name (split b'\n' body)) (no_sums_entry asset_name)

-- os.OpenFile with O_TRUNC and io.Copy: what came of the body is written, also where it is cut short.
unfoldable pub write_body : Dir → ℕ → Bytes → Dir
write_body d t body = record d {
  inode = write_inode d.inode t (record (d.inode t) { content = body });
}

-- `downloadFile` into the inode `t` of the temporary file; `opens` tells whether it can be opened.
unfoldable pub download_file : Reply → Bool → Dir → ℕ → Dir × Result UpdateError (Unit {0})
unfolding write_body
download_file no_reply opens d t = (d, err asset_request)
download_file (reply code body complete) opens d t =
    if not (code == 200)
    then (d, err (asset_status code))
    else if not opens
    then (d, err asset_open)
    else (write_body d t body, if complete then ok tt else err asset_write)

module _ (sha256_hex : Bytes → Bytes) where
  -- `gotHash != wantHash` after `sha256File`, whose read of the file may fail.
  unfoldable pub check_hash : Bytes → Bool → Dir → ℕ → Result UpdateError (Unit {0})
  check_hash want reads d t =
      let got = sha256_hex (d.inode t).content in
      if not reads
      then err asset_hash
      else if bytes_eq got want
      then ok tt
      else err (checksum_mismatch want got)

  unfoldable pub after_download :
      Bytes → Bool → ℕ → Dir × Result UpdateError (Unit {0}) → Dir × Result UpdateError (Unit {0})
  unfolding check_hash
  after_download want reads t (d, err e) = (d, err e)
  after_download want reads t (d, ok _) = (d, check_hash want reads d t)

  unfoldable pub verify_with :
      Result UpdateError Bytes → Reply → Bool → Bool → Dir → ℕ → Dir × Result UpdateError (Unit {0})
  unfolding download_file after_download
  verify_with (err e) asset opens reads d t = (d, err e)
  verify_with (ok want) asset opens reads d t =
      after_download want reads t (download_file asset opens d t)

  unfoldable pub download_and_verify :
      Reply → Reply → Bytes → Bool → Bool → Dir → ℕ → Dir × Result UpdateError (Unit {0})
  unfolding fetch_expected_hash verify_with
  download_and_verify sums asset asset_name opens reads d t =
      verify_with (fetch_expected_hash sums asset_name) asset opens reads d t

finds_binary_mode :
    first_hash (codes "app") (split b'\n' (codes "\nAB12 lib\nCD34 *app\n")) ≡ some (codes "cd34")
unfolding first_hash trim_space split fields trim_prefix to_lower bytes_eq
finds_binary_mode = refl
