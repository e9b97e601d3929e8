-- ===== src/Config/Env/Laws.antt =====
-- What a loaded configuration satisfies, and that loading never panics.
use xray_vless_ws_go.Base.{
  ◌≡◌, ◌≢◌, refl, subst, ◌⊎◌, inl, inr, true, List, [], ◌∷◌, Option, none, some, Bytes, codes,
  bytes_eq_sound, Bool-cases, Result, ok, err, All, arith,
}
use xray_vless_ws_go.Text.Search.{has_prefix}
use xray_vless_ws_go.Text.Decimal.RoundTrip.{IsInt64}
use xray_vless_ws_go.Config.{Config, ConfigError, InboundAddr, SniEntry}
use xray_vless_ws_go.Config.Sni.{parse_sni_list}
use xray_vless_ws_go.Config.Sni.Laws.{IsEntry, parse_sni_list-IsEntry}
use xray_vless_ws_go.Config.Ports.{parse_ports, tunnel_target}
use xray_vless_ws_go.Config.Ports.Laws.{parse_ports-IsInt64, tunnel_target_lem}
use xray_vless_ws_go.Config.Env.{
  Environ, Draws, normalize_mode, normalize_transport, with_slash, base_config, with_target,
  with_fake_sni, finish, from_env,
}

abbrev pub OneOf : Bytes → List Bytes → Type 0
OneOf s [] = ⊥
OneOf s (t ∷ ts) = (s ≡ t) ⊎ OneOf s ts

-- What every other package relies on.
pub record IsValid (cfg : Config) : Type 0 where
  pub has_ports : cfg.ports ≢ []
  pub ports_fit : All (λ a. IsInt64 a.port) cfg.ports
  pub target : tunnel_target cfg.ports ≡ some (cfg.target_ip, cfg.target_port)
  pub not_wildcard : cfg.target_ip ≢ codes "0.0.0.0"
  pub has_sni : cfg.fake_sni ≢ []
  pub sni_entries : All IsEntry cfg.fake_sni
  pub known_transport : OneOf cfg.transport (codes "websocket" ∷ codes "xhttp" ∷ [])
  pub known_mode :
      OneOf cfg.xhttp_mode
        (codes "auto" ∷ codes "packet-up" ∷ codes "stream-up" ∷ codes "stream-one" ∷ [])
  pub rooted : has_prefix cfg.ws_path (codes "/") ≡ true

normalize_mode-OneOf :
    (mode : Bytes)
    → OneOf
        (normalize_mode mode)
        (codes "auto" ∷ codes "packet-up" ∷ codes "stream-up" ∷ codes "stream-one" ∷ [])
unfolding normalize_mode
normalize_mode-OneOf mode = ground (
  arith,
  bytes_eq_sound mode (codes "auto"),
  bytes_eq_sound mode (codes "packet-up"),
  bytes_eq_sound mode (codes "stream-up"),
  bytes_eq_sound mode (codes "stream-one"),
)

normalize_transport-OneOf :
    (t : Bytes) → OneOf (normalize_transport t) (codes "websocket" ∷ codes "xhttp" ∷ [])
unfolding normalize_transport
normalize_transport-OneOf t = ground arith

with_slash-rooted : (path : Bytes) → has_prefix (with_slash path) (codes "/") ≡ true
unfolding with_slash
with_slash-rooted path = elim (Bool-cases (has_prefix path (codes "/"))) [
  | inl e ↦ rw e e
  | inr e ↦ rw e (unfold has_prefix in refl)
]

-- What `finish` keeps of the fields that are read first.
abbrev Prepared : Config → Type 0
Prepared cfg =
    OneOf cfg.transport (codes "websocket" ∷ codes "xhttp" ∷ [])
    × OneOf cfg.xhttp_mode
        (codes "auto" ∷ codes "packet-up" ∷ codes "stream-up" ∷ codes "stream-one" ∷ [])
    × (has_prefix cfg.ws_path (codes "/") ≡ true)

base_config-Prepared : (env : Environ) (draws : Draws) → Prepared (base_config env draws)
unfolding base_config
base_config-Prepared env draws =
    (normalize_transport-OneOf _, normalize_mode-OneOf _, with_slash-rooted _)

-- What a run of `finish` may return.
abbrev Outcome :
    Config → Result ConfigError (List InboundAddr) → Option (Result ConfigError Config) → Type 0
Outcome cfg ports none = ⊥
Outcome cfg ports (some (ok cfg')) = IsValid cfg'
Outcome cfg ports (some (err e)) =
    (ports ≡ err e)
    ⊎ ((xs : List InboundAddr) × (ports ≡ ok xs) × (parse_sni_list cfg.raw_fake_sni ≡ err e))

module _ (cfg : Config) (prepared : Prepared cfg) (xs : List InboundAddr) where
  finish_ports-Outcome :
      (sni : Result ConfigError (List SniEntry)) (ip : Bytes) (port : _)
      → parse_sni_list cfg.raw_fake_sni ≡ sni
      → (xs ≢ []) × All (λ a. IsInt64 a.port) xs
      → tunnel_target xs ≡ some (ip, port)
      → ip ≢ codes "0.0.0.0"
      → Outcome cfg
          (ok xs)
          (some (with_fake_sni (record cfg { ports = xs; target_ip = ip; target_port = port }) sni))
  unfolding with_fake_sni
  finish_ports-Outcome (err e) ip port s p t d = inr (xs, refl, s)
  finish_ports-Outcome (ok es) ip port s p t d =
      let entries = parse_sni_list-IsEntry cfg.raw_fake_sni es s in
      record {
        has_ports = p.0;
        ports_fit = p.1;
        target = t;
        not_wildcard = d;
        has_sni = entries.0;
        sni_entries = entries.1;
        known_transport = prepared.0;
        known_mode = prepared.1;
        rooted = prepared.2;
      }

finish-Outcome :
    (cfg : Config) (raw : Bytes) (ports : Result ConfigError (List InboundAddr))
    → Prepared cfg
    → parse_ports raw ≡ ports
    → Outcome cfg ports (finish cfg ports)
unfolding finish with_target
finish-Outcome cfg raw (err e) h p = inl refl
finish-Outcome cfg raw (ok []) h p = absurd ((parse_ports-IsInt64 raw [] p).0 refl)
finish-Outcome cfg raw (ok (a ∷ xs)) h p =
    let (ip, target, not_wildcard, _) = tunnel_target_lem a xs in
    rw target (
      finish_ports-Outcome cfg h (a ∷ xs) (parse_sni_list cfg.raw_fake_sni) ip a.port refl
        (parse_ports-IsInt64 raw (a ∷ xs) p) target not_wildcard)

from_env-Outcome :
    (env : Environ) (draws : Draws)
    → let cfg = base_config env draws in Outcome cfg (parse_ports cfg.raw_port) (from_env env draws)
unfolding from_env
from_env-Outcome env draws =
    finish-Outcome (base_config env draws) (base_config env draws).raw_port _
      (base_config-Prepared env draws) refl

-- Loading never panics, whatever the environment holds: it returns a configuration or an error.
from_env-ne-none : (env : Environ) (draws : Draws) → from_env env draws ≢ none
from_env-ne-none env draws h =
    subst (Outcome (base_config env draws) (parse_ports (base_config env draws).raw_port)) h
      (from_env-Outcome env draws)

pub from_env-IsValid :
    (env : Environ) (draws : Draws) (cfg : Config)
    → from_env env draws ≡ some (ok cfg)
    → IsValid cfg
from_env-IsValid env draws cfg h =
    subst (Outcome (base_config env draws) (parse_ports (base_config env draws).raw_port)) h
      (from_env-Outcome env draws)

-- An error comes from PORT, or from FAKE_SNI once PORT was read.
from_env-err :
    (env : Environ) (draws : Draws) (e : ConfigError)
    → from_env env draws ≡ some (err e)
    → let cfg = base_config env draws in
      (parse_ports cfg.raw_port ≡ err e)
      ⊎ ((xs : List InboundAddr) × (parse_ports cfg.raw_port ≡ ok xs)
          × (parse_sni_list cfg.raw_fake_sni ≡ err e))
from_env-err env draws e h =
    subst (Outcome (base_config env draws) (parse_ports (base_config env draws).raw_port)) h
      (from_env-Outcome env draws)
