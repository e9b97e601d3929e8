-- ===== src/Tunnel/Launch.antt =====
-- internal/tunnel/launch.go and named.go: the command line and the config file of cloudflared, of
-- which Launch/Process.antt makes a process.
pub mod Process
pub mod Laws
use xray_vless_ws_go.Base.{
  Bool, true, false, not, List, [], ◌∷◌, ◌++◌, Option, none, some, Bytes, codes, bytes_eq, concat,
  if◌then◌else◌,
}
use xray_vless_ws_go.Text.Decimal.{format_int}
use xray_vless_ws_go.Config.{Config}

-- `WriteNamedTunnelConfig`'s content: the ingress rules.
unfoldable pub named_tunnel_config : Config → Bytes
named_tunnel_config cfg = concat (
    codes "ingress:\n  - hostname: "
    ∷ cfg.ws_host
    ∷ codes "\n    service: http://"
    ∷ cfg.target_ip
    ∷ codes ":"
    ∷ format_int cfg.target_port
    ∷ codes "\n"
    ∷ (if bytes_eq cfg.transport (codes "xhttp")
        then codes "    originRequest:\n      http2Origin: true\n"
        else [])
    ∷ codes "  - service: http_status:404\n"
    ∷ [])

-- What both kinds of launch begin with.
abbrev common_args : List Bytes
common_args =
    codes "tunnel"
    ∷ codes "--protocol"
    ∷ codes "http2"
    ∷ codes "--no-autoupdate"
    ∷ codes "--edge-ip-version"
    ∷ codes "auto"
    ∷ codes "--grace-period"
    ∷ codes "30s"
    ∷ []

-- What `Launch` starts: whether it is a named tunnel, the config file that it writes, and the
-- arguments.
pub record LaunchPlan : Type 0 where
  pub named : Bool
  pub config_file : Option Bytes
  pub args : List Bytes

unfoldable pub named_plan : Config → Bytes → Bytes → LaunchPlan
unfolding named_tunnel_config
named_plan cfg config_path metrics_addr = record {
  named = true;
  config_file = some (named_tunnel_config cfg);
  args =
      common_args
      ++ (codes "--config"
          ∷ config_path
          ∷ codes "--metrics"
          ∷ metrics_addr
          ∷ codes "run"
          ∷ codes "--token"
          ∷ cfg.tunnel_token
          ∷ []);
}

unfoldable pub quick_plan : Config → Bytes → LaunchPlan
quick_plan cfg metrics_addr = record {
  named = false;
  config_file = none;
  args =
      common_args
      ++ (codes "--metrics"
          ∷ metrics_addr
          ∷ ((if bytes_eq cfg.transport (codes "xhttp") then codes "--http2-origin" ∷ [] else [])
              ++ (codes "--url"
                  ∷ concat (
                      codes "http://" ∷ cfg.target_ip ∷ codes ":" ∷ format_int cfg.target_port ∷ [])
                  ∷ [])));
}

-- A named tunnel exactly where TUNNEL_TOKEN is set.
unfoldable pub launch_plan : Config → Bytes → Bytes → LaunchPlan
unfolding named_plan quick_plan
launch_plan cfg config_path metrics_addr =
    if not (bytes_eq cfg.tunnel_token [])
    then named_plan cfg config_path metrics_addr
    else quick_plan cfg metrics_addr
