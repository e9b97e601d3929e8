-- ===== src/Config/Ports.antt =====
-- internal/config/ports.go.
pub mod Laws
use xray_vless_ws_go.Base.{
  ℕ, ◌+◌, ◌≡◌, refl, Bool, true, false, List, [], ◌∷◌, ◌++◌, Option, none, some, Bytes, codes,
  bytes_eq, if◌then◌else◌, Result, ok, err, ◌>>=◌,
}
use xray_vless_ws_go.Text.Trim.{trim_space}
use xray_vless_ws_go.Text.Search.{contains_byte}
use xray_vless_ws_go.Text.Split.{split, join}
use xray_vless_ws_go.Text.Decimal.{ℤ, pos, atoi}
use xray_vless_ws_go.Config.{
  InboundAddr, ConfigError, port_empty, port_invalid, port_not_bare, port_no_entries,
}

-- `parts[:len(parts)-1]` and `parts[len(parts)-1]`; `Split` never returns an empty slice.
unfoldable pub split_last : List Bytes → List Bytes × Bytes
split_last [] = ([], [])
split_last (p ∷ []) = ([], p)
split_last (p ∷ q ∷ ps) = let (before, last) = split_last (q ∷ ps) in (p ∷ before, last)

-- `Atoi` of the port's text, or the error that the caller gives.
unfoldable pub with_port : Bytes → ConfigError → Option ℤ → Result ConfigError InboundAddr
with_port listen_ip e none = err e
with_port listen_ip e (some port) = ok (record { listen_ip = listen_ip; port = port })

-- An entry with a colon, from its parts.
unfoldable pub from_parts : Bytes → List Bytes × Bytes → Result ConfigError InboundAddr
unfolding with_port
from_parts item (before, port_str) =
    with_port (join (b':' ∷ []) before) (port_invalid item port_str) (atoi port_str)

unfoldable pub parse_with_ip : Bytes → Result ConfigError InboundAddr
unfolding split_last from_parts
parse_with_ip item = from_parts item (split_last (split b':' item))

-- A bare port listens on every address.
unfoldable pub parse_bare : Bytes → Result ConfigError InboundAddr
unfolding with_port
parse_bare item = with_port (codes "0.0.0.0") (port_not_bare item) (atoi item)

unfoldable pub parse_inbound : Bytes → Result ConfigError InboundAddr
unfolding parse_with_ip parse_bare
parse_inbound item = if contains_byte item b':' then parse_with_ip item else parse_bare item

unfoldable pub parse_inbounds : List Bytes → Result ConfigError (List InboundAddr)
parse_inbounds [] = ok []
parse_inbounds (part ∷ parts) =
    let item = trim_space part in
    let rest = parse_inbounds parts in
    if bytes_eq item [] then rest else do addr ← parse_inbound item; addrs ← rest; ok (addr ∷ addrs)

abbrev pub require_inbounds : Bytes → List InboundAddr → Result ConfigError (List InboundAddr)
require_inbounds raw [] = err (port_no_entries raw)
require_inbounds raw (a ∷ as') = ok (a ∷ as')

unfoldable pub parse_ports : Bytes → Result ConfigError (List InboundAddr)
unfolding parse_inbounds
parse_ports raw₀ =
    let raw = trim_space raw₀ in
    if bytes_eq raw []
    then err port_empty
    else do out ← parse_inbounds (split b',' raw); require_inbounds raw out

-- `ports[0]` panics on an empty slice: `none`.
unfoldable pub tunnel_target : List InboundAddr → Option (Bytes × ℤ)
tunnel_target [] = none
tunnel_target (first ∷ _) = some (
  if bytes_eq first.listen_ip (codes "0.0.0.0") then codes "127.0.0.1" else first.listen_ip,
  first.port,
)

parses_two :
    parse_ports (codes "0.0.0.0:443, 80")
    ≡ ok (
        record { listen_ip = codes "0.0.0.0"; port = pos 443 }
        ∷ record { listen_ip = codes "0.0.0.0"; port = pos 80 }
        ∷ [])
unfolding parse_ports parse_inbound trim_space split join contains_byte bytes_eq atoi
parses_two = refl
