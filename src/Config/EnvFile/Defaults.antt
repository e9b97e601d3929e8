-- ===== src/Config/EnvFile/Defaults.antt =====
-- What a start makes of the defaults of PORT and FAKE_SNI, and `Load` where its steps succeed.
use xray_vless_ws_go.Base.{
  ◌≡◌, ◌≢◌, refl, ap, ◌∙◌, [], ◌∷◌, Option, none, some, Bytes, codes, bytes_eq, bytes_eq_ne,
  if◌then◌else◌, Result, ok, err,
}
use xray_vless_ws_go.Base.Script.{Script, ◌>>=◌}
use xray_vless_ws_go.Text.Trim.{trim_space}
use xray_vless_ws_go.Text.Search.{contains_byte}
use xray_vless_ws_go.Text.Split.{cut, split, join}
use xray_vless_ws_go.Text.Decimal.{pos, atoi, read_unsigned}
use xray_vless_ws_go.Config.{Config, ConfigError}
use xray_vless_ws_go.Config.Sni.{
  parse_sni_list, parse_entry, sni_and_remark, named_by, require_name,
}
use xray_vless_ws_go.Config.Ports.{
  parse_ports, parse_inbound, parse_with_ip, from_parts, split_last, with_port, tunnel_target,
}
use xray_vless_ws_go.Config.Env.{
  Environ, Draws, default_port, default_fake_sni, getenv, getenv_or_generate, base_config,
  with_fake_sni, with_target, finish, from_env,
}
use xray_vless_ws_go.Config.EnvFile.{
  World, LoadError, loading, panicked, invalid, Reader, write_if_missing, read_file, read_env, load,
}

abbrev chosen : Bytes → Option Bytes → Bytes
chosen generated none = generated
chosen generated (some v) = if bytes_eq v [] then generated else v

pub getenv_or_generate-some :
    (env : Environ) (key v generated : Bytes)
    → env key ≡ some v
    → v ≢ []
    → getenv_or_generate env key generated ≡ v
unfolding getenv_or_generate
getenv_or_generate-some env key v generated e n =
    ap (chosen generated) e ∙ rw (bytes_eq_ne v [] n) refl

abbrev or_fallback : Bytes → Option Bytes → Bytes
or_fallback fallback none = fallback
or_fallback fallback (some v) = v

getenv-some :
    (env : Environ) (key v fallback : Bytes) → env key ≡ some v → getenv env key fallback ≡ v
unfolding getenv
getenv-some env key v fallback e = ap (or_fallback fallback) e

-- What `finish` makes of the defaults of PORT and FAKE_SNI.
abbrev pub with_defaults : Config → Config
with_defaults cfg = record cfg {
  ports = record { listen_ip = codes "127.0.0.1"; port = pos 8888 } ∷ [];
  target_ip = codes "127.0.0.1";
  target_port = pos 8888;
  fake_sni = record { sni = codes "api24-normal-alisg.tiktokv.com"; remark = codes "Tiktok" } ∷ [];
}

finish-with_defaults :
    (cfg : Config)
    → cfg.raw_fake_sni ≡ default_fake_sni
    → finish cfg (parse_ports default_port) ≡ some (ok (with_defaults cfg))
unfolding finish with_target with_fake_sni parse_ports parse_inbound parse_with_ip from_parts
    split_last with_port tunnel_target parse_sni_list parse_entry sni_and_remark named_by
    require_name contains_byte trim_space split join cut bytes_eq atoi read_unsigned
finish-with_defaults cfg s = rw s refl

pub from_env-with_defaults :
    (env : Environ) (draws : Draws)
    → env (codes "PORT") ≡ some default_port
    → env (codes "FAKE_SNI") ≡ some default_fake_sni
    → from_env env draws ≡ some (ok (with_defaults (base_config env draws)))
unfolding from_env
from_env-with_defaults env draws p s =
    ap (λ raw. finish (base_config env draws) (parse_ports raw))
      (unfold base_config in getenv-some env (codes "PORT") default_port default_port p)
    ∙ finish-with_defaults (base_config env draws) (
        unfold base_config in
        getenv-some env (codes "FAKE_SNI") default_fake_sni default_fake_sni s)

module _ {A B : Type 0} where
  bind-ok :
      (m : Script World LoadError A) (f : A → Script World LoadError B) (w w' : World) (a : A)
      → m w ≡ (ok a, w')
      → (m >>= f) w ≡ f a w'
  unfolding ◌>>=◌
  bind-ok m f w w' a h =
      ap {B = Result LoadError B × World} (λ r. elim r.0 [ ok a ↦ f a r.1 | err e ↦ (err e, r.1) ])
        h

abbrev behind_reader : World → Result Bytes Environ → Result LoadError (Unit {0}) × World
behind_reader w (ok env) = (ok tt, record { file = w.file; env = env })
behind_reader w (err e) = (err (loading e), w)

read_file-ok :
    (reader : Reader) (w : World) (env : Environ)
    → reader w.file w.env ≡ ok env
    → read_file reader w ≡ (ok tt, record { file = w.file; env = env })
unfolding read_file
read_file-ok reader w env h = ap (behind_reader w) h

abbrev behind_env : Option (Result ConfigError Config) → Result LoadError Config
behind_env none = err panicked
behind_env (some (ok cfg)) = ok cfg
behind_env (some (err e)) = err (invalid e)

read_env-ok :
    (draws : Draws) (w : World) (cfg : Config)
    → from_env w.env draws ≡ some (ok cfg)
    → read_env draws w ≡ (ok cfg, w)
read_env-ok draws w cfg h = ap (λ o. (behind_env o, w)) h

-- A load whose three steps succeed.
pub load-ok :
    (reader : Reader) (failure : Option Bytes) (for_file for_env : Draws) (w w' : World)
    (env : Environ) (cfg : Config)
    → write_if_missing failure for_file w ≡ (ok tt, w')
    → reader w'.file w'.env ≡ ok env
    → from_env env for_env ≡ some (ok cfg)
    → load reader failure for_file for_env w ≡ (ok cfg, record { file = w'.file; env = env })
unfolding load
load-ok reader failure for_file for_env w w' env cfg written read made =
    bind-ok (write_if_missing failure for_file) (λ u. read_file reader >>= λ v. read_env for_env) w
      w' tt written
    ∙ bind-ok (read_file reader) (λ v. read_env for_env) w' (record { file = w'.file; env = env })
        tt (read_file-ok reader w' env read)
    ∙ read_env-ok for_env (record { file = w'.file; env = env }) cfg made
