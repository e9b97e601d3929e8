-- ===== src/Xray/BuildConfig/Agreement.antt =====
-- That the links of internal/linkgen/links.go lead to the inbounds of internal/xraycore/config.go.
use xray_vless_ws_go.Base.{
  ◌≡◌, refl, inl, inr, Option, none, some, Bytes, codes, bytes_eq, Bool-cases,
}
use xray_vless_ws_go.Config.{Config, InboundAddr, SniEntry}
use xray_vless_ws_go.LinkGen.Quote.Decode.{decode-safe_quote}
use xray_vless_ws_go.LinkGen.Links.{is_xhttp, tls_link, no_tls_link}
use xray_vless_ws_go.LinkGen.Links.Reader.{Link, read_link}
use xray_vless_ws_go.LinkGen.Links.Described.{param, decoded}
use xray_vless_ws_go.LinkGen.Links.Targets.{IsLinkable, tls_target, no_tls_target}
use xray_vless_ws_go.LinkGen.Links.Laws.{read-tls_link, read-no_tls_link}
use xray_vless_ws_go.Xray.BuildConfig.{inbound}
use xray_vless_ws_go.Xray.BuildConfig.Reader.{Inbound, read_inbound}
use xray_vless_ws_go.Xray.BuildConfig.Laws.{target_inbound, read_inbound-inbound}

-- A client of the link speaks what the inbound listens for.
pub record Reaches (l : Link) (v : Inbound) : Type 0 where
  pub client_same : l.user ≡ v.client
  pub network_same : param (codes "type") l.params ≡ some v.network
  pub path_same : decoded (param (codes "path") l.params) ≡ some v.path
  pub mode_same : param (codes "mode") l.params ≡ v.mode

-- A link's text and an inbound's tree that are read as such.
abbrev pub LeadsTo : Bytes → Option Inbound → Type 0
LeadsTo s none = ⊥
LeadsTo s (some v) = (l : Link) × (read_link s ≡ some l) × Reaches l v

module _ (cfg : Config) (host : Bytes) (e : SniEntry) (p : InboundAddr)
    (h : IsLinkable cfg cfg.xray_uuid host e) where
  tls_target-Reaches : Reaches (tls_target cfg cfg.xray_uuid host e) (target_inbound cfg p)
  unfolding bytes_eq
  tls_target-Reaches = record {
    client_same = refl;
    network_same = refl;
    path_same = decode-safe_quote cfg.ws_path h.are_bytes.0;
    mode_same = elim (Bool-cases (is_xhttp cfg)) [ inl x ↦ rw x refl | inr x ↦ rw x refl ];
  }

  no_tls_target-Reaches : Reaches (no_tls_target cfg cfg.xray_uuid host e) (target_inbound cfg p)
  unfolding bytes_eq
  no_tls_target-Reaches = record {
    client_same = refl;
    network_same = refl;
    path_same = decode-safe_quote cfg.ws_path h.are_bytes.0;
    mode_same = elim (Bool-cases (is_xhttp cfg)) [ inl x ↦ rw x refl | inr x ↦ rw x refl ];
  }

-- Where the values that go into a link unescaped hold none of its delimiters, both links of an entry
-- lead to every inbound: the same client, transport and mode, and the same path once decoded.
pub links-LeadsTo :
    (cfg : Config) (host : Bytes) (e : SniEntry) (p : InboundAddr)
    → IsLinkable cfg cfg.xray_uuid host e
    → LeadsTo (tls_link cfg cfg.xray_uuid host e) (read_inbound (inbound cfg p))
      × LeadsTo (no_tls_link cfg cfg.xray_uuid host e) (read_inbound (inbound cfg p))
links-LeadsTo cfg host e p h = rw (read_inbound-inbound cfg p) (
  (
    tls_target cfg cfg.xray_uuid host e,
    read-tls_link cfg cfg.xray_uuid host e h,
    tls_target-Reaches cfg host e p h,
  ),
  (
    no_tls_target cfg cfg.xray_uuid host e,
    read-no_tls_link cfg cfg.xray_uuid host e h,
    no_tls_target-Reaches cfg host e p h,
  ),
)
