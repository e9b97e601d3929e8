-- ===== src/Config/Env.antt =====
-- internal/config/config.go with the constants of defaults.go. The process's environment is a
-- function from a key to its value, `none` for a key that is not set.
pub mod Laws
pub mod Password
use xray_vless_ws_go.Base.{
  ◌≡◌, refl, Bool, not, ◌||◌, List, [], ◌∷◌, ◌++◌, Option, none, some, Bytes, codes, bytes_eq,
  if◌then◌else◌, Result, ok, err, ◌>>=◌,
}
use xray_vless_ws_go.Text.Trim.{trim_space}
use xray_vless_ws_go.Text.Decimal
use xray_vless_ws_go.Text.Search.{to_lower, has_prefix}
use xray_vless_ws_go.Config.{Config, ConfigError, InboundAddr, SniEntry, port_empty}
use xray_vless_ws_go.Config.Sni.{parse_sni_list}
use xray_vless_ws_go.Config.Ports.{parse_ports, tunnel_target}
use xray_vless_ws_go.Config.Random.{new_uuid_v4, new_secret_token}

abbrev pub Environ : Type 0
Environ = Bytes → Option Bytes

abbrev pub default_port : Bytes
default_port = codes "127.0.0.1:8888"

abbrev pub default_fake_sni : Bytes
default_fake_sni = codes "api24-normal-alisg.tiktokv.com#Tiktok"

abbrev pub default_ws_path : Bytes
default_ws_path = codes "/tiktok4g"

abbrev pub default_ws_host : Bytes
default_ws_host = codes "trycloudflare.com"

abbrev pub default_transport : Bytes
default_transport = codes "websocket"

abbrev pub default_xhttp_mode : Bytes
default_xhttp_mode = codes "auto"

unfoldable pub getenv : Environ → Bytes → Bytes → Bytes
getenv env key fallback = elim (env key) [ none ↦ fallback | some v ↦ v ]

-- A key that is set to the empty text counts as not set.
unfoldable pub getenv_or_generate : Environ → Bytes → Bytes → Bytes
getenv_or_generate env key generated = elim (env key) [
  | none ↦ generated
  | some v ↦ if bytes_eq v [] then generated else v
]

-- What `rand.Read` yields for the UUID, the log password and the worker password.
pub record Draws : Type 0 where
  pub uuid : Option Bytes
  pub log_secret : Option Bytes
  pub worker_secret : Option Bytes

unfoldable pub normalize_mode : Bytes → Bytes
normalize_mode mode =
    if bytes_eq mode (codes "auto")
      || bytes_eq mode (codes "packet-up")
      || bytes_eq mode (codes "stream-up")
      || bytes_eq mode (codes "stream-one")
    then mode
    else default_xhttp_mode

unfoldable pub normalize_transport : Bytes → Bytes
normalize_transport transport =
    if bytes_eq transport []
      || bytes_eq transport (codes "websocket")
      || bytes_eq transport (codes "ws")
    then codes "websocket"
    else if bytes_eq transport (codes "xhttp")
        || bytes_eq transport (codes "h2")
        || bytes_eq transport (codes "splithttp")
    then codes "xhttp"
    else codes "websocket"

unfoldable pub with_slash : Bytes → Bytes
with_slash path = if has_prefix path (codes "/") then path else codes "/" ++ path

-- The fields that are read before the two lists are parsed, after the three normalisations.
unfoldable pub base_config : Environ → Draws → Config
unfolding getenv getenv_or_generate normalize_mode normalize_transport with_slash
base_config env draws = record {
  raw_port = getenv env (codes "PORT") default_port;
  ports = [];
  target_ip = [];
  target_port = Decimal.pos 0;
  xray_uuid = getenv_or_generate env (codes "XRAY_UUID") (new_uuid_v4 draws.uuid);
  raw_fake_sni = getenv env (codes "FAKE_SNI") default_fake_sni;
  fake_sni = [];
  ws_path = with_slash (trim_space (getenv env (codes "WS_PATH") default_ws_path));
  ws_host = trim_space (getenv env (codes "WS_HOST") default_ws_host);
  transport =
      normalize_transport
        (to_lower (trim_space (getenv env (codes "TRANSPORT") default_transport)));
  xhttp_mode =
      normalize_mode (to_lower (trim_space (getenv env (codes "XHTTP_MODE") default_xhttp_mode)));
  webhook_url = trim_space (getenv env (codes "WEBHOOK_URL") []);
  tunnel_token = trim_space (getenv env (codes "TUNNEL_TOKEN") []);
  debug_mode = bytes_eq (to_lower (trim_space (getenv env (codes "DEBUG_MODE") []))) (codes "true");
  log_password = getenv_or_generate env (codes "LOG_PASSWORD") (new_secret_token draws.log_secret);
  cloudflare_api_token = trim_space (getenv env (codes "CLOUDFLARE_API_TOKEN") []);
  cloudflare_account_id = trim_space (getenv env (codes "CLOUDFLARE_ACCOUNT_ID") []);
  domain = trim_space (getenv env (codes "DOMAIN") []);
  worker_password =
      getenv_or_generate env (codes "WORKER_PASSWORD") (new_secret_token draws.worker_secret);
}

unfoldable pub with_fake_sni :
    Config → Result ConfigError (List SniEntry) → Result ConfigError Config
with_fake_sni cfg (err e) = err e
with_fake_sni cfg (ok sni) = ok (record cfg { fake_sni = sni })

-- `TunnelTarget(ports)` panics on an empty slice: the outer `none`.
unfoldable pub with_target :
    Config → List InboundAddr → Option (Bytes × Decimal.ℤ) → Option (Result ConfigError Config)
unfolding with_fake_sni
with_target cfg ports none = none
with_target cfg ports (some (ip, port)) = some (
    with_fake_sni (record cfg { ports = ports; target_ip = ip; target_port = port })
      (parse_sni_list cfg.raw_fake_sni))

-- The end of `fromEnv`: PORT, the target and FAKE_SNI. `none` is a panic.
unfoldable pub finish :
    Config → Result ConfigError (List InboundAddr) → Option (Result ConfigError Config)
unfolding with_target
finish cfg (err e) = some (err e)
finish cfg (ok ports) = with_target cfg ports (tunnel_target ports)

unfoldable pub from_env : Environ → Draws → Option (Result ConfigError Config)
unfolding base_config finish
from_env env draws = let cfg = base_config env draws in finish cfg (parse_ports cfg.raw_port)
