-- ===== src/Config/Env/Password.antt =====
-- The log password of a loaded configuration, which cmd/xrayws/main.go requires of the dashboard.
use xray_vless_ws_go.Base.{
  ◌≡◌, ◌≢◌, refl, subst, sym, ◌∙◌, List, [], ◌∷◌, Option, none, some, Bytes, codes, bytes_eq,
  Result, ok, err, if◌then◌else◌,
}
use xray_vless_ws_go.Text.Decimal.{ℤ}
use xray_vless_ws_go.Config.{Config, ConfigError, InboundAddr, SniEntry}
use xray_vless_ws_go.Config.Ports.{parse_ports, tunnel_target}
use xray_vless_ws_go.Config.Sni.{parse_sni_list}
use xray_vless_ws_go.Config.Random.{new_secret_token, encode_hex}
use xray_vless_ws_go.Config.Env.{
  Environ, Draws, getenv_or_generate, base_config, with_fake_sni, with_target, finish, from_env,
}

-- Only the first step sets the password.
abbrev Kept : Bytes → Option (Result ConfigError Config) → Type 0
Kept password none = Unit
Kept password (some (err e)) = Unit
Kept password (some (ok c)) = c.log_password ≡ password

with_fake_sni-Kept :
    (cfg : Config) (r : Result ConfigError (List SniEntry))
    → Kept cfg.log_password (some (with_fake_sni cfg r))
unfolding with_fake_sni
with_fake_sni-Kept cfg (err e) = tt
with_fake_sni-Kept cfg (ok sni) = refl

finish-Kept :
    (cfg : Config) (r : Result ConfigError (List InboundAddr))
    → Kept cfg.log_password (finish cfg r)
unfolding finish with_target
finish-Kept cfg (err e) = tt
finish-Kept cfg (ok ports) = by_target (tunnel_target ports)
  where
    by_target : (t : Option (Bytes × ℤ)) → Kept cfg.log_password (with_target cfg ports t)
    by_target none = tt
    by_target (some (ip, port)) =
        with_fake_sni-Kept (record cfg { ports = ports; target_ip = ip; target_port = port })
          (parse_sni_list cfg.raw_fake_sni)

getenv_or_generate-ne :
    (env : Environ) (key generated : Bytes)
    → generated ≢ []
    → getenv_or_generate env key generated ≢ []
unfolding getenv_or_generate bytes_eq
getenv_or_generate-ne env key generated h = by_value (env key)
  where
    by_value :
        (v : Option Bytes)
        → (elim v [ none ↦ generated | some v ↦ if bytes_eq v [] then generated else v ]) ≢ []
    by_value none = h
    by_value (some []) = h
    by_value (some (c ∷ v)) = λ e. cc

new_secret_token-ne : (draw : Option Bytes) → draw ≢ some [] → new_secret_token draw ≢ []
unfolding new_secret_token encode_hex
new_secret_token-ne none h = λ e. cc
new_secret_token-ne (some []) h = absurd (h refl)
new_secret_token-ne (some (c ∷ s)) h = λ e. cc

-- A loaded configuration has a log password, whatever the environment holds, as long as what
-- rand.Read yields is not empty.
pub from_env-log_password :
    (env : Environ) (draws : Draws) (cfg : Config)
    → draws.log_secret ≢ some []
    → from_env env draws ≡ some (ok cfg)
    → cfg.log_password ≢ []
unfolding from_env base_config
from_env-log_password env draws cfg h e empty =
    getenv_or_generate-ne env (codes "LOG_PASSWORD") (new_secret_token draws.log_secret)
      (new_secret_token-ne draws.log_secret h)
      (sym (
          subst (Kept (base_config env draws).log_password) e
            (finish-Kept (base_config env draws) (parse_ports (base_config env draws).raw_port)))
        ∙ empty)
