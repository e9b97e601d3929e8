-- ===== src/Config.antt =====
-- internal/config: the types that its parts share. Strings are lists of bytes.
pub mod Sni
pub mod Ports
pub mod Random
pub mod Env
pub mod EnvFile
mod Tests
mod RestartTests
use xray_vless_ws_go.Base.{List, Bytes, Bool}
use xray_vless_ws_go.Text.Decimal.{ℤ}

-- config.SNIEntry.
pub record SniEntry : Type 0 where
  pub sni : Bytes
  pub remark : Bytes

-- config.InboundAddr.
pub record InboundAddr : Type 0 where
  pub listen_ip : Bytes
  pub port : ℤ

-- config.Config.
pub record Config : Type 0 where
  pub raw_port : Bytes
  pub ports : List InboundAddr
  pub target_ip : Bytes
  pub target_port : ℤ
  pub xray_uuid : Bytes
  pub raw_fake_sni : Bytes
  pub fake_sni : List SniEntry
  pub ws_path : Bytes
  pub ws_host : Bytes
  pub transport : Bytes
  pub xhttp_mode : Bytes
  pub webhook_url : Bytes
  pub tunnel_token : Bytes
  pub debug_mode : Bool
  pub log_password : Bytes
  pub cloudflare_api_token : Bytes
  pub cloudflare_account_id : Bytes
  pub domain : Bytes
  pub worker_password : Bytes

-- The error returns, each with the strings that its message quotes.
pub data ConfigError : Type 0 where
  port_empty : ConfigError
  port_invalid : Bytes → Bytes → ConfigError
  port_not_bare : Bytes → ConfigError
  port_no_entries : Bytes → ConfigError
  sni_empty : ConfigError
  sni_entry_empty : Bytes → ConfigError
  sni_no_entries : Bytes → ConfigError
