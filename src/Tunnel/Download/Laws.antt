-- ===== src/Tunnel/Download/Laws.antt =====
-- What EnsureBinary leaves on the disk.
use xray_vless_ws_go.Base.{
  ℕ, ◌≡◌, refl, ap, ◌∙◌, Bool, true, false, Bytes, codes, bytes_eq, Result, ok, err, if◌then◌else◌,
}
use xray_vless_ws_go.Base.Script.{
  Script, ◌>>◌, Leaves, Leaves-weaken, Triple, Triple-bind, Triple-wrap, Triple-weaken,
  Triple-always,
}
use xray_vless_ws_go.Tunnel.Download.{
  AssetInfo, Machine, current_asset, ensure_executable, abs_path, download, ensure_asset,
  ensure_binary,
}

-- What a system promises of an executable file, by a predicate of its own: chmod makes one of the
-- path, which is then found; and how often the network was asked.
pub record IsMachine {S : Type 0} (m : Machine S) (IsExecutable : Bytes → S → Type 0)
    (fetches : S → ℕ) : Type 0 where
  pub chmod_sets :
      (path : Bytes) → Triple (λ s. Unit) (IsExecutable path) (λ s. Unit) (m.chmod path)
  pub chmod_local : (path : Bytes) (s : S) → fetches (m.chmod path s).1 ≡ fetches s
  pub executable_exists : (path : Bytes) (s : S) → IsExecutable path s → m.exists path s ≡ true

module _ {S : Type 0} (m : Machine S) (IsExecutable : Bytes → S → Type 0) (fetches : S → ℕ)
    (h : IsMachine m IsExecutable fetches) (unix : bytes_eq m.goos (codes "windows") ≡ false) where
  abbrev Any : S → Type 0
  Any s = Unit

  ensure_executable-sets :
      (path : Bytes) → Triple Any (IsExecutable path) Any (ensure_executable m path)
  unfolding ensure_executable
  ensure_executable-sets path = rw unix (Triple-wrap _ (h.chmod_sets path))

  abs_path-keeps :
      (path : Bytes) → Triple (IsExecutable path) (IsExecutable path) Any (abs_path m path)
  unfolding abs_path
  abs_path-keeps path =
      Triple-weaken (Triple-wrap _ (Triple-always (λ s e. e))) (λ s e. e) (λ s e. tt)

  any : {A : Type 0} {m : Script S Bytes A} → Triple Any Any Any m
  any = Triple-always (λ s e. tt)

  tail-sets :
      (path : Bytes)
      → Triple Any (IsExecutable path) Any (ensure_executable m path >> abs_path m path)
  tail-sets path = Triple-bind (ensure_executable-sets path) (λ _. abs_path-keeps path)

  download-sets :
      (asset : AssetInfo) (path : Bytes)
      → Triple Any (IsExecutable path) Any (download m asset path)
  unfolding download
  download-sets asset path = Triple-bind any (λ _.
      Triple-bind any (λ answer. Triple-bind any (λ body. Triple-bind any (λ _. tail-sets path))))

  ensure_asset-sets :
      (asset : AssetInfo) (path : Bytes)
      → Triple Any (IsExecutable path) Any (ensure_asset m asset path)
  unfolding ensure_asset
  ensure_asset-sets asset path = record { at = λ s _. by_test s (m.exists path s) }
    where
      by_test :
          (s : S) (found : Bool)
          → Leaves (IsExecutable path) Any (
              if found
              then (ensure_executable m path >> abs_path m path) s
              else download m asset path s)
      by_test s true = (tail-sets path).at s tt
      by_test s false = (download-sets asset path).at s tt

  abbrev Asked : ℕ → S → Type 0
  Asked n s = fetches s ≡ n

  tail-asks_nothing :
      (path : Bytes) (n : ℕ)
      → Triple (Asked n) (Asked n) (Asked n) (ensure_executable m path >> abs_path m path)
  unfolding ensure_executable abs_path
  tail-asks_nothing path n =
      Triple-bind (rw unix (Triple-wrap _ (Triple-always (λ s e. h.chmod_local path s ∙ e))))
        (λ _. Triple-wrap _ (Triple-always (λ s e. e)))

  fetches-Leaves :
      {A : Type 0} (n : ℕ) (r : Result Bytes A × S) → Leaves (Asked n) (Asked n) r → fetches r.1 ≡ n
  fetches-Leaves n (ok a, s) e = e
  fetches-Leaves n (err x, s) e = e

  ensure_asset-again :
      (asset : AssetInfo) (path : Bytes) (s : S)
      → IsExecutable path s
      → fetches (ensure_asset m asset path s).1 ≡ fetches s
  unfolding ensure_asset
  ensure_asset-again asset path s x =
      rw (ensure_asset, h.executable_exists path s x)
        (fetches-Leaves (fetches s) _ ((tail-asks_nothing path (fetches s)).at s refl))

ensure_binary-asset :
    {S : Type 0} (m : Machine S) (dir : Bytes) (asset : AssetInfo) (s : S)
    → current_asset m.goos m.goarch ≡ ok asset
    → ensure_binary m dir s ≡ ensure_asset m asset (m.join dir asset.local_name) s
unfolding ensure_binary
ensure_binary-asset m dir asset s e = rw (ensure_binary, e) refl

-- On a system with an executable bit, which a chmod sets, wherever EnsureBinary returns a path, the
-- file under the name of the asset is executable, and a further call asks the network for nothing. An
-- executable file is found by Stat, and a chmod does not ask the network.
pub ensure_binary-IsExecutable :
    {S : Type 0} (m : Machine S) (IsExecutable : Bytes → S → Type 0) (fetches : S → ℕ) (dir : Bytes)
    (asset : AssetInfo) (s : S)
    → IsMachine m IsExecutable fetches
    → bytes_eq m.goos (codes "windows") ≡ false
    → current_asset m.goos m.goarch ≡ ok asset
    → Leaves
        (λ s'.
          IsExecutable (m.join dir asset.local_name) s'
          × (fetches (ensure_binary m dir s').1 ≡ fetches s'))
        (λ s'. Unit)
        (ensure_binary m dir s)
ensure_binary-IsExecutable {S} m IsExecutable fetches dir asset s h unix e =
    let path = m.join dir asset.local_name in
    let same = λ (s : S). ensure_binary-asset m dir asset s e in
    rw (ensure_binary-asset m dir asset s e) (
      Leaves-weaken (IsExecutable path) _ (λ s'. Unit) _ (ensure_asset m asset path s)
        ((ensure_asset-sets m IsExecutable fetches h unix asset path).at s tt)
        (λ s' x. (
          x,
          ap (λ r. fetches r.1) (same s')
              ∙ ensure_asset-again m IsExecutable fetches h unix asset path s' x,
        ))
        (λ s' u. tt))
