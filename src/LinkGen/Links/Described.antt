-- ===== src/LinkGen/Links/Described.antt =====
-- What a configuration says of its links, in terms of the settings alone.
use xray_vless_ws_go.Base.{
  ◌≡◌, ◌≢◌, refl, ◌⊎◌, inl, inr, Bool, true, false, List, [], ◌∷◌, ◌++◌, Option, none, some, Bytes,
  codes, bytes_eq, bytes_eq_sound, bytes_eq_refl, if◌then◌else◌, Bool-cases,
}
use xray_vless_ws_go.Config.{Config, SniEntry}
use xray_vless_ws_go.LinkGen.Quote.Decode.{decode}
use xray_vless_ws_go.LinkGen.Links.{tunnel_host_info, is_xhttp, link_mode}
use xray_vless_ws_go.LinkGen.Links.Reader.{Link}

abbrev pub param : Bytes → List (Bytes × Bytes) → Option Bytes
param key [] = none
param key ((k, v) ∷ ps) = if bytes_eq k key then some v else param key ps

abbrev pub decoded : Option Bytes → Option Bytes
decoded none = none
decoded (some s) = decode s

-- The host is WS_HOST, or the tunnel's where WS_HOST is empty or the domain of quick tunnels.
abbrev pub IsHost : Config → Bytes → Bytes → Type 0
IsHost cfg host h =
    ((cfg.ws_host ≡ []) ⊎ (cfg.ws_host ≡ codes "trycloudflare.com")) × (h ≡ host)
    ⊎ (cfg.ws_host ≢ []) × (cfg.ws_host ≢ codes "trycloudflare.com") × (h ≡ cfg.ws_host)

abbrev pub IsMode : Config → Bytes → Type 0
IsMode cfg m =
    (cfg.xhttp_mode ≡ []) × (m ≡ codes "auto") ⊎ (cfg.xhttp_mode ≢ []) × (m ≡ cfg.xhttp_mode)

-- Over xhttp a link has a mode, and over WebSocket the length of its early data.
abbrev pub Carried : Config → List (Bytes × Bytes) → Type 0
Carried cfg params =
    (cfg.transport ≡ codes "xhttp")
      × (param (codes "type") params ≡ some (codes "xhttp"))
      × (param (codes "ed") params ≡ none)
      × ((m : Bytes) × (param (codes "mode") params ≡ some m) × IsMode cfg m)
    ⊎ (cfg.transport ≢ codes "xhttp")
      × (param (codes "type") params ≡ some (codes "ws"))
      × (param (codes "ed") params ≡ some (codes "2048"))
      × (param (codes "mode") params ≡ none)

-- The link of an entry with TLS or without it.
pub record Describes (cfg : Config) (uuid host : Bytes) (e : SniEntry) (tls : Bool) (l : Link)
    : Type 0 where
  pub for_user : l.user ≡ uuid
  pub to_address : l.address ≡ e.sni
  pub to_port : l.port ≡ (if tls then codes "443" else codes "80")
  pub secured : param (codes "security") l.params ≡ some (if tls then codes "tls" else [])
  pub on_path : decoded (param (codes "path") l.params) ≡ some cfg.ws_path
  pub for_host : (h : Bytes) × (param (codes "host") l.params ≡ some h) × IsHost cfg host h
  pub named : param (codes "sni") l.params ≡ (if tls then param (codes "host") l.params else none)
  pub carried : Carried cfg l.params
  pub labelled : l.label ≡ e.remark ++ (if tls then codes " TLS" else codes " NO TLS")

differ : (s t : Bytes) → bytes_eq s t ≡ false → s ≢ t
differ s t h e = let same = bytes_eq_refl s in cc

pub tunnel_host_info-IsHost :
    (cfg : Config) (host : Bytes) → IsHost cfg host (tunnel_host_info cfg host)
unfolding tunnel_host_info
tunnel_host_info-IsHost cfg host = elim (Bool-cases (bytes_eq cfg.ws_host [])) [
  | inl e ↦ rw e (inl (inl (bytes_eq_sound cfg.ws_host [] e), refl))
  | inr e ↦ elim (Bool-cases (bytes_eq cfg.ws_host (codes "trycloudflare.com"))) [
    | inl q ↦ rw (e, q) (inl (inr (bytes_eq_sound cfg.ws_host (codes "trycloudflare.com") q), refl))
    | inr q ↦
        rw (e, q)
          (inr (differ cfg.ws_host [] e, differ cfg.ws_host (codes "trycloudflare.com") q, refl))
  ]
]

pub link_mode-IsMode : (cfg : Config) → IsMode cfg (link_mode cfg)
unfolding link_mode
link_mode-IsMode cfg = elim (Bool-cases (bytes_eq cfg.xhttp_mode [])) [
  | inl e ↦ rw e (inl (bytes_eq_sound cfg.xhttp_mode [] e, refl))
  | inr e ↦ rw e (inr (differ cfg.xhttp_mode [] e, refl))
]

pub is_xhttp-true : (cfg : Config) → is_xhttp cfg ≡ true → cfg.transport ≡ codes "xhttp"
unfolding is_xhttp
is_xhttp-true cfg h = bytes_eq_sound cfg.transport (codes "xhttp") h

pub is_xhttp-false : (cfg : Config) → is_xhttp cfg ≡ false → cfg.transport ≢ codes "xhttp"
unfolding is_xhttp
is_xhttp-false cfg h = differ cfg.transport (codes "xhttp") h
