-- ===== src/Main/ReachabilityTests.antt =====
-- The connection of an environment in which nothing is set.
use xray_vless_ws_go.Base.{◌≡◌, refl, [], ◌∷◌, ◌++◌, none, some, arith, codes, bytes_eq, ok}
use xray_vless_ws_go.Text.Trim.{trim_space}
use xray_vless_ws_go.Text.Search.{contains_byte, has_prefix}
use xray_vless_ws_go.Text.Split.{join, split, cut}
use xray_vless_ws_go.Text.Decimal.{pos, atoi, read_unsigned, format_int}
use xray_vless_ws_go.Config.{Config}
use xray_vless_ws_go.Config.Sni.{
  parse_sni_list, parse_entry, sni_and_remark, named_by, require_name,
}
use xray_vless_ws_go.Config.Ports.{
  parse_ports, parse_inbound, parse_with_ip, from_parts, split_last, with_port, tunnel_target,
}
use xray_vless_ws_go.Config.Random.{new_uuid_v4}
use xray_vless_ws_go.Config.Env.{
  Environ, Draws, from_env, base_config, getenv, getenv_or_generate, with_slash,
}
use xray_vless_ws_go.LinkGen.Links.{tunnel_host_info}
use xray_vless_ws_go.Xray.BuildConfig.Reader.{Inbound}
use xray_vless_ws_go.Main.Reachability.{Connects, IsPlain, from_env-Connects}

abbrev no_env : Environ
no_env key = none

abbrev draws : Draws
draws = record { uuid = none; log_secret = none; worker_secret = none }

abbrev loaded : Config
loaded = record (base_config no_env draws) {
  ports = record { listen_ip = codes "127.0.0.1"; port = pos 8888 } ∷ [];
  target_ip = codes "127.0.0.1";
  target_port = pos 8888;
  fake_sni = record { sni = codes "api24-normal-alisg.tiktokv.com"; remark = codes "Tiktok" } ∷ [];
}

is_loaded : from_env no_env draws ≡ some (ok loaded)
unfolding from_env parse_ports parse_inbound parse_with_ip from_parts split_last with_port
    tunnel_target parse_sni_list parse_entry sni_and_remark named_by require_name contains_byte
    trim_space split join cut bytes_eq atoi read_unsigned
is_loaded = refl

loaded-IsPlain : IsPlain loaded (codes "x.trycloudflare.com")
unfolding base_config getenv getenv_or_generate new_uuid_v4 with_slash has_prefix trim_space
    bytes_eq tunnel_host_info
loaded-IsPlain = record {
  user_plain = ground arith;
  host_plain = ground arith;
  path_bytes = ground arith;
  entries_plain = ground arith;
}

from_env-Connects_example :
    (v : Inbound) × Connects loaded
      (codes "x.trycloudflare.com")
      (codes "/srv/config.yml")
      (codes "127.0.0.1:" ++ format_int (pos 4000))
      v
from_env-Connects_example =
    from_env-Connects no_env draws loaded (codes "x.trycloudflare.com") (codes "/srv/config.yml")
      (pos 4000) is_loaded loaded-IsPlain
