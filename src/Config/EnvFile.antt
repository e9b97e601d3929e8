-- ===== src/Config/EnvFile.antt =====
-- internal/config/config.go and defaults.go: the generated .env file, `Load` and `Reload`. godotenv and
-- the write of the file are arguments; the file and the process's environment are the state.
pub mod Defaults
pub mod Laws
pub mod Plain
pub mod Restart
use xray_vless_ws_go.Base.{
  ◌≡◌, refl, Bool, true, false, List, [], ◌∷◌, ◌++◌, Option, none, some, Bytes, codes, Result, ok,
  err,
}
use xray_vless_ws_go.Base.Script.{Script, ◌>>=◌, ◌>>◌}
use xray_vless_ws_go.Config.{Config, ConfigError}
use xray_vless_ws_go.Config.Random.{new_uuid_v4, new_secret_token}
use xray_vless_ws_go.Config.Env.{
  Environ, Draws, default_port, default_fake_sni, default_ws_path, default_ws_host,
  default_transport, default_xhttp_mode, from_env,
}

-- U+2014 in UTF-8.
abbrev em_dash : Bytes
em_dash = 226 ∷ 128 ∷ 148 ∷ []

-- The lines of `envFileTemplate` with its values.
unfoldable pub env_file_lines : (uuid log_password worker_password : Bytes) → List Bytes
env_file_lines uuid log_password worker_password =
    (codes "PORT=" ++ default_port)
    ∷ (codes "XRAY_UUID=" ++ uuid)
    ∷ (codes "FAKE_SNI=" ++ default_fake_sni)
    ∷ (codes "WS_PATH=" ++ default_ws_path)
    ∷ (codes "WS_HOST=" ++ default_ws_host)
    ∷ codes "# Transport protocol: websocket (default) or xhttp (aliases: h2, splithttp)"
    ∷ (codes "TRANSPORT=" ++ default_transport)
    ∷ codes
        "# XHTTP mode (used when TRANSPORT=xhttp): auto (default), packet-up, stream-up, stream-one"
    ∷ (codes "XHTTP_MODE=" ++ default_xhttp_mode)
    ∷ codes "WEBHOOK_URL="
    ∷ codes "# Required whenever the embedded dashboard/log viewer is enabled (the"
    ∷ codes "# default: --log-port=9999). Generated randomly on first run so a fresh"
    ∷ (codes "# install works out of the box "
        ++ (em_dash ++ codes " the dashboard serves live traffic stats"))
    ∷ codes "# and the tunnel hostname, so it refuses to start unauthenticated. Change"
    ∷ codes "# this, or pass --log-port=0 to disable the dashboard entirely."
    ∷ (codes "LOG_PASSWORD=" ++ log_password)
    ∷ codes "# Optional: use a named Cloudflare Tunnel instead of a quick/ephemeral one."
    ∷ codes "# If set, cloudflared runs as: cloudflared tunnel run --token <TUNNEL_TOKEN>"
    ∷ codes "# The Public Hostname configured for that tunnel IS your domain, so also set"
    ∷ (codes "# WS_HOST to that hostname (e.g. reverse.example.io.vn) "
        ++ (em_dash ++ codes " it will be used"))
    ∷ codes "# directly instead of scraping a *.trycloudflare.com URL from the logs."
    ∷ codes "#"
    ∷ codes "# Leave this blank (with WS_HOST set to a real hostname, and"
    ∷ codes "# CLOUDFLARE_API_TOKEN + DOMAIN below configured) to have the app"
    ∷ codes "# auto-create the named Tunnel + DNS route for you via the Cloudflare API"
    ∷ (codes "# instead of doing cloudflared tunnel login/create/route dns by hand "
        ++ (em_dash ++ codes " see"))
    ∷ codes "# CLOUDFLARE_API_TOKEN's comment below."
    ∷ codes "TUNNEL_TOKEN="
    ∷ codes "# Optional: auto-deploy the Cloudflare Worker bridge (script + KV binding)"
    ∷ codes "# via the Cloudflare REST API instead of the dashboard, AND (when TUNNEL_TOKEN"
    ∷ codes "# above is blank and WS_HOST is set to a real hostname) auto-create a named"
    ∷ codes "# Cloudflare Tunnel + DNS route pointing WS_HOST at it. Set"
    ∷ codes "# CLOUDFLARE_API_TOKEN (needs Workers Scripts:Edit, Workers KV Storage:Edit,"
    ∷ codes "# Workers Routes:Edit (Zone), Zone:Read (Zone), Cloudflare Tunnel:Edit"
    ∷ codes "# (Account), and DNS:Edit (Zone) on DOMAIN's zone) together with DOMAIN (a"
    ∷ (codes "# zone apex already on the same Cloudflare account, e.g. example.com "
        ++ (em_dash ++ codes " NOT"))
    ∷ codes "# vless.example.com, the app prepends the \"vless.\" prefix itself for the"
    ∷ (codes "# Worker route) to enable "
        ++ (em_dash ++ codes " both empty (default) means this is skipped"))
    ∷ codes "# entirely, WEBHOOK_URL/TUNNEL_TOKEN above are used as-is."
    ∷ codes "# WS_HOST must then be a different subdomain of DOMAIN than vless.DOMAIN"
    ∷ codes "# (that one's reserved for the Worker route above), e.g. tunnel.example.com."
    ∷ codes "# CLOUDFLARE_ACCOUNT_ID is only needed if the token can see more than one"
    ∷ codes "# Cloudflare account. WORKER_PASSWORD is generated once below and becomes"
    ∷ codes "# the deployed Worker's /setapi?password= value."
    ∷ codes "CLOUDFLARE_API_TOKEN="
    ∷ codes "CLOUDFLARE_ACCOUNT_ID="
    ∷ codes "DOMAIN="
    ∷ (codes "WORKER_PASSWORD=" ++ worker_password)
    ∷ []

abbrev pub with_newlines : List Bytes → Bytes
with_newlines [] = []
with_newlines (l ∷ ls) = l ++ (b'\n' ∷ with_newlines ls)

unfoldable pub default_env_file : Draws → Bytes
unfolding env_file_lines new_uuid_v4 new_secret_token
default_env_file draws = with_newlines (
    env_file_lines (new_uuid_v4 draws.uuid) (new_secret_token draws.log_secret)
      (new_secret_token draws.worker_secret))

-- The content of .env, `none` where there is no such file, and the environment.
pub record World : Type 0 where
  pub file : Option Bytes
  pub env : Environ

pub data LoadError : Type 0 where
  writing loading : Bytes → LoadError
  invalid : ConfigError → LoadError
  panicked : LoadError

-- godotenv.Load or Overload, of a content, `none` where it cannot be read.
abbrev pub Reader : Type 0
Reader = Option Bytes → Environ → Result Bytes Environ

-- `fromEnv` at the end.
abbrev pub read_env : Draws → Script World LoadError Config
read_env draws w = (
  elim (from_env w.env draws) [
    | none ↦ err panicked
    | some (ok cfg) ↦ ok cfg
    | some (err e) ↦ err (invalid e)
  ],
  w,
)

unfoldable pub read_file : Reader → Script World LoadError Unit
read_file reader w = elim (reader w.file w.env) [
  | err e ↦ (err (loading e), w)
  | ok env ↦ (ok tt, record { file = w.file; env = env })
]

-- `writeDefaultEnvFile`, where there is no file; its error is an argument.
unfoldable pub write_if_missing : Option Bytes → Draws → Script World LoadError Unit
unfolding default_env_file
write_if_missing failure draws w = elim w.file [
  | some content ↦ (ok tt, w)
  | none ↦ elim failure [
    | some e ↦ (err (writing e), w)
    | none ↦ (ok tt, record { file = some (default_env_file draws); env = w.env })
  ]
]

unfoldable pub load :
    Reader → Option Bytes → (for_file for_env : Draws) → Script World LoadError Config
unfolding write_if_missing read_file
load reader failure for_file for_env = do
  write_if_missing failure for_file
  read_file reader
  read_env for_env

unfoldable pub reload : Reader → Draws → Script World LoadError Config
unfolding read_file
reload reader draws = do read_file reader; read_env draws
