-- ===== src/Config/Tests.antt =====
-- The theorems on the configuration, each at one configuration.
use xray_vless_ws_go.Base.{
  ◌≡◌, ◌≢◌, refl, [], ◌∷◌, map, none, some, arith, Bytes, codes, bytes_eq, if◌then◌else◌, ok, err,
}
use xray_vless_ws_go.Text.Trim.{trim_space}
use xray_vless_ws_go.Text.Search.{contains_byte}
use xray_vless_ws_go.Text.Split.{join, split, cut}
use xray_vless_ws_go.Text.Decimal.{pos, negsuc, atoi, read_unsigned}
use xray_vless_ws_go.Config.{Config, InboundAddr, SniEntry, port_not_bare}
use xray_vless_ws_go.Config.Sni.{
  parse_sni_list, parse_entry, sni_and_remark, named_by, require_name,
}
use xray_vless_ws_go.Config.Sni.Laws.{
  IsEntry, parse_sni_list-IsEntry, parse_sni_list-join, show_entry,
}
use xray_vless_ws_go.Config.Sni.Laws
use xray_vless_ws_go.Config.Ports.{
  parse_ports, parse_inbound, parse_bare, parse_with_ip, from_parts, split_last, with_port,
  tunnel_target,
}
use xray_vless_ws_go.Config.Ports.Laws.{parse_ports-join, parse_ports-IsInt64, show_inbound}
use xray_vless_ws_go.Config.Ports.Laws as PortsLaws
use xray_vless_ws_go.Config.Random.{new_uuid_v4}
use xray_vless_ws_go.Config.Random.Laws.{IsUuidV4, new_uuid_v4-IsUuidV4}
use xray_vless_ws_go.Config.Env.{Environ, Draws, from_env, base_config}
use xray_vless_ws_go.Config.Env.Password.{from_env-log_password}

abbrev entry : SniEntry
entry = record { sni = codes "a.b"; remark = codes "T" }

abbrev inbound : InboundAddr
inbound = record { listen_ip = codes "::1"; port = negsuc 7 }

abbrev no_env : Environ
no_env key = none

-- Only PORT is set, to a text that is no port.
abbrev bad_port : Environ
bad_port key = if bytes_eq key (codes "PORT") then some (codes "x") else none

abbrev draws : Draws
draws = record { uuid = none; log_secret = none; worker_secret = none }

sni_parsed : parse_sni_list (codes "a.b#T") ≡ ok (entry ∷ [])
unfolding parse_sni_list parse_entry sni_and_remark named_by require_name trim_space split cut
    bytes_eq
sni_parsed = refl

parse_sni_list-join_example :
    parse_sni_list (join (b',' ∷ []) (map show_entry (entry ∷ []))) ≡ ok (entry ∷ [])
parse_sni_list-join_example = parse_sni_list-join entry [] (plain, tt)
  where
    plain : Laws.IsPlain entry
    plain = record {
      is_entry = record {
        named = ground arith;
        labelled = ground arith;
        one_hash = ground arith;
        one_item = ground arith;
      };
      graphic = ground arith;
    }

parse_ports-join_example :
    parse_ports (join (b',' ∷ []) (map show_inbound (inbound ∷ []))) ≡ ok (inbound ∷ [])
parse_ports-join_example = parse_ports-join inbound [] (plain, tt)
  where
    plain : PortsLaws.IsPlain inbound
    plain = record { graphic = ground arith; one_item = ground arith; in_range = ground arith }

abbrev local_port : InboundAddr
local_port = record { listen_ip = codes "0.0.0.0"; port = pos 80 }

ports_parsed : parse_ports (codes "80") ≡ ok (local_port ∷ [])
unfolding parse_ports parse_inbound parse_bare with_port contains_byte trim_space split bytes_eq
    atoi read_unsigned
ports_parsed = refl

abbrev zeros : Bytes
zeros = 0 ∷ 0 ∷ 0 ∷ 0 ∷ 0 ∷ 0 ∷ 0 ∷ 0 ∷ 0 ∷ 0 ∷ 0 ∷ 0 ∷ 0 ∷ 0 ∷ 0 ∷ 255 ∷ []

new_uuid_v4-IsUuidV4_example : IsUuidV4 (new_uuid_v4 (some zeros))
new_uuid_v4-IsUuidV4_example = new_uuid_v4-IsUuidV4 (some zeros) (refl, ground arith)

from_env_refused : from_env bad_port draws ≡ some (err (port_not_bare (codes "x")))
unfolding from_env parse_ports parse_inbound parse_bare with_port contains_byte trim_space split
    bytes_eq atoi read_unsigned
from_env_refused = refl

abbrev listening : InboundAddr
listening = record { listen_ip = codes "127.0.0.1"; port = pos 8888 }

-- What is loaded where nothing is set.
abbrev loaded : Config
loaded = record (base_config no_env draws) {
  ports = listening ∷ [];
  target_ip = codes "127.0.0.1";
  target_port = pos 8888;
  fake_sni = record { sni = codes "api24-normal-alisg.tiktokv.com"; remark = codes "Tiktok" } ∷ [];
}

from_env_loads : from_env no_env draws ≡ some (ok loaded)
unfolding from_env parse_ports parse_inbound parse_with_ip from_parts split_last with_port
    tunnel_target parse_sni_list parse_entry sni_and_remark named_by require_name contains_byte
    trim_space split join cut bytes_eq atoi read_unsigned
from_env_loads = refl

from_env-log_password_example : loaded.log_password ≢ []
from_env-log_password_example = from_env-log_password no_env draws loaded (λ e. cc) from_env_loads
