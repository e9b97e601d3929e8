-- ===== src/Main/Callbacks.antt =====
-- cmd/xrayws/main.go: what the goroutines and the callbacks of `run` do at each of their events.
pub mod Published
use xray_vless_ws_go.Base.{
  ℕ, ◌≡◌, refl, Bool, true, false, ◌||◌, List, [], ◌∷◌, ◌++◌, Option, none, some, Bytes, codes,
  bytes_eq, Result, if◌then◌else◌,
}
use xray_vless_ws_go.Text.Decimal.{ℤ, pos}
use xray_vless_ws_go.Config.{Config}
use xray_vless_ws_go.LinkGen.Links.{build_links}
use xray_vless_ws_go.LinkGen.Export.{Disk, ExportMeta, ExportedInfo, ExportError, export}
use xray_vless_ws_go.LogServer.Ring.{Ring, push}
use xray_vless_ws_go.LogServer.Status.{
  StatusStore, set_hostname, set_tunnel_status, record_traffic, record_liveness,
}

-- A tick of the traffic sampling, by what `engine.Traffic` returned.
unfoldable pub sample_tick : (ℤ → ℤ → ℕ → ℤ) → ℕ → ℤ × ℤ × Bool → StatusStore → StatusStore
unfolding record_traffic
sample_tick rate now (up, down, ok) s = if ok then record_traffic rate s now up down else s

-- A tick of the liveness probe, by what `ProbeListener` returned.
unfoldable pub probe_tick : Bool → StatusStore → StatusStore
unfolding record_liveness
probe_tick ok s = record_liveness s ok

-- `sup.OnReady`, where there is a log server.
unfoldable pub on_ready : Bool → ℤ → StatusStore → StatusStore
unfolding set_tunnel_status
on_ready ready connections s = set_tunnel_status s ready connections

-- `logf`: the log server gets every line, and standard output those of the tunnel, or all in debug
-- mode.
unfoldable pub log_line :
    Config → (always_print : Bool) → (time source line : Bytes) → Ring → Ring × Option Bytes
unfolding push
log_line cfg always_print time source line ring = (
  push ring time source line,
  if always_print || cfg.debug_mode then some (b'[' ∷ (source ++ (codes "] " ++ line))) else none,
)

-- What `exportLinks` leaves: the status, the links that it prints, the errors and the disk behind
-- the export, and the webhook that is sent, if one is.
pub record Exported (S : Type 0) : Type 0 where
  pub status : StatusStore
  pub printed : List Bytes
  pub errors : List ExportError
  pub state : S
  pub webhook : Option (Bytes × ExportedInfo)

abbrev pub config_path : Bytes
config_path = codes "vless_info.config"

abbrev pub json_path : Bytes
json_path = codes "vless_info.json"

module _ {S : Type 0} (disk : Disk S) (marshal_indent : ExportedInfo → Result Bytes Bytes) where
  abbrev pub meta_of : Config → Bytes → Bytes → ℤ → ExportMeta
  meta_of cfg tunnel_host ip start_time = record {
    ip = ip;
    ws_host = tunnel_host;
    ws_path = cfg.ws_path;
    transport = cfg.transport;
    start_time = start_time;
  }

  -- `exportLinks`; the public address is an argument.
  unfoldable pub export_links : Config → (tunnel_host ip : Bytes) → ℤ → StatusStore → S → Exported S
  unfolding build_links export set_hostname bytes_eq
  export_links cfg tunnel_host ip start_time status s =
      let links = build_links cfg cfg.xray_uuid tunnel_host in
      let (errors, s₁) =
        export disk marshal_indent links (meta_of cfg tunnel_host ip start_time) config_path
          json_path s in
      record {
        status = set_hostname status tunnel_host;
        printed = if cfg.debug_mode then links else [];
        errors = errors;
        state = s₁;
        webhook =
            if bytes_eq cfg.webhook_url []
            then none
            else some (
              cfg.webhook_url,
              record {
                payloads = links;
                ip = ip;
                ws_host = tunnel_host;
                ws_path = cfg.ws_path;
                transport = cfg.transport;
                start_time = start_time;
              },
            );
      }
