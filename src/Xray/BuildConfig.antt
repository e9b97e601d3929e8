-- ===== src/Xray/BuildConfig.antt =====
-- internal/xraycore/config.go: the tree that `BuildConfig` marshals. `json.MarshalIndent` is an
-- argument.
pub mod Reader
pub mod Laws
pub mod Agreement
use xray_vless_ws_go.Base.{
  Bool, true, false, List, [], ◌∷◌, map, Option, none, some, Bytes, codes, bytes_eq, Result, ok,
  err, if◌then◌else◌,
}
use xray_vless_ws_go.Text.Decimal.{ℤ, pos}
use xray_vless_ws_go.Config.{Config, InboundAddr}
use xray_vless_ws_go.Xray.Json.{Json, text, number, boolean, map_of, slice_of}

-- `statsEmail`.
abbrev pub stats_email : Bytes
stats_email = codes "default"

pub data BuildError : Type 0 where
  nil_config no_ports : BuildError
  marshaling : Bytes → BuildError

unfoldable pub xhttp_settings : Config → Json
unfolding bytes_eq
xhttp_settings cfg = map_of (
    (codes "path", text cfg.ws_path)
    ∷ (codes "host", text [])
    ∷ (codes "mode", text (if bytes_eq cfg.xhttp_mode [] then codes "auto" else cfg.xhttp_mode))
    ∷ [])

abbrev pub ws_settings : Config → Json
ws_settings cfg = map_of (
    (codes "path", text cfg.ws_path)
    ∷ (codes "headers", map_of [])
    ∷ (codes "heartbeatPeriod", number (pos 10))
    ∷ (codes "maxEarlyData", number (pos 2048))
    ∷ (codes "earlyDataHeaderName", text (codes "Sec-WebSocket-Protocol"))
    ∷ [])

unfoldable pub stream_settings : Config → Json
unfolding bytes_eq xhttp_settings
stream_settings cfg =
    if bytes_eq cfg.transport (codes "xhttp")
    then map_of (
        (codes "network", text (codes "xhttp"))
        ∷ (codes "security", text (codes "none"))
        ∷ (codes "xhttpSettings", xhttp_settings cfg)
        ∷ [])
    else map_of (
        (codes "network", text (codes "ws"))
        ∷ (codes "security", text (codes "none"))
        ∷ (codes "wsSettings", ws_settings cfg)
        ∷ [])

abbrev pub sniffing : Json
sniffing = map_of (
    (codes "enabled", boolean true)
    ∷ (codes "destOverride", slice_of (text (codes "http") ∷ text (codes "tls") ∷ []))
    ∷ (codes "routeOnly", boolean true)
    ∷ [])

unfoldable pub inbound : Config → InboundAddr → Json
unfolding stream_settings
inbound cfg p = map_of (
    (codes "port", number p.port)
    ∷ (codes "listen", text p.listen_ip)
    ∷ (codes "protocol", text (codes "vless"))
    ∷ (codes "sniffing", sniffing)
    ∷ (
      codes "settings",
      map_of (
          (
            codes "clients",
            slice_of (
                map_of (
                  (codes "id", text cfg.xray_uuid)
                  ∷ (codes "level", number (pos 0))
                  ∷ (codes "email", text stats_email)
                  ∷ [])
                ∷ []),
          )
          ∷ (codes "decryption", text (codes "none"))
          ∷ []),
    )
    ∷ (codes "streamSettings", stream_settings cfg)
    ∷ [])

abbrev pub dns : Json
dns = map_of (
    (
      codes "servers",
      slice_of (text (codes "localhost") ∷ text (codes "1.1.1.1") ∷ text (codes "8.8.8.8") ∷ []),
    )
    ∷ (codes "queryStrategy", text (codes "UseIPv4"))
    ∷ (codes "disableCache", boolean false)
    ∷ (codes "tag", text (codes "dns-internal"))
    ∷ [])

abbrev pub outbounds : Json
outbounds = slice_of (
    map_of (
      (codes "protocol", text (codes "freedom"))
      ∷ (codes "settings", map_of ((codes "domainStrategy", text (codes "UseIPv4")) ∷ []))
      ∷ [])
    ∷ [])

abbrev pub policy : Json
policy = map_of (
    (
      codes "levels",
      map_of (
          (
            codes "0",
            map_of (
                (codes "statsUserUplink", boolean true)
                ∷ (codes "statsUserDownlink", boolean true)
                ∷ (codes "connIdle", number (pos 120))
                ∷ (codes "downlinkOnly", number (pos 3))
                ∷ (codes "uplinkOnly", number (pos 1))
                ∷ (codes "handshake", number (pos 4))
                ∷ []),
          )
          ∷ []),
    )
    ∷ [])

unfoldable pub inbounds : Config → List InboundAddr → List Json
unfolding inbound
inbounds cfg [] = []
inbounds cfg (p ∷ ps) = inbound cfg p ∷ inbounds cfg ps

unfoldable pub xray_config : Config → Json
unfolding inbounds
xray_config cfg = map_of (
    (codes "log", map_of ((codes "loglevel", text (codes "warning")) ∷ []))
    ∷ (codes "dns", dns)
    ∷ (codes "inbounds", slice_of (inbounds cfg cfg.ports))
    ∷ (codes "outbounds", outbounds)
    ∷ (codes "policy", policy)
    ∷ (codes "stats", map_of [])
    ∷ [])

-- The error of MarshalIndent is its text.
module _ (marshal_indent : Json → Result Bytes Bytes) where
  abbrev pub marshaled : Result Bytes Bytes → Result BuildError Bytes
  marshaled (ok out) = ok out
  marshaled (err e) = err (marshaling e)

  -- `len(cfg.Ports) == 0`.
  abbrev pub require_ports : List InboundAddr → Result BuildError Bytes → Result BuildError Bytes
  require_ports [] r = err no_ports
  require_ports (p ∷ ps) r = r

  unfoldable pub build_config : Option Config → Result BuildError Bytes
  unfolding xray_config
  build_config none = err nil_config
  build_config (some cfg) = require_ports cfg.ports (marshaled (marshal_indent (xray_config cfg)))
