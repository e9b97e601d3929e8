-- ===== src/LinkGen/Links/Targets.antt =====
-- The two links of an entry as a reader has to read them, and that the settings describe them.
use xray_vless_ws_go.Base.{
  true, false, bytes_eq, refl, inl, inr, List, [], ◌∷◌, ◌++◌, Bytes, codes, if◌then◌else◌,
  Bool-cases, IsBytes,
}
use xray_vless_ws_go.Text.Split.Laws.{Lacks}
use xray_vless_ws_go.Config.{Config, SniEntry}
use xray_vless_ws_go.LinkGen.Quote.{safe_quote}
use xray_vless_ws_go.LinkGen.Quote.Decode.{decode-safe_quote}
use xray_vless_ws_go.LinkGen.Links.{tunnel_host_info, is_xhttp, net_type, link_mode}
use xray_vless_ws_go.LinkGen.Links.Reader.{Link}
use xray_vless_ws_go.LinkGen.Links.Described.{
  Describes, tunnel_host_info-IsHost, link_mode-IsMode, is_xhttp-true, is_xhttp-false,
}

module _ (cfg : Config) where
  abbrev pub extra_tls : List (Bytes × Bytes)
  extra_tls =
      if is_xhttp cfg
      then (codes "alpn", codes "h2") ∷ (codes "mode", link_mode cfg) ∷ []
      else (codes "ed", codes "2048") ∷ []

  abbrev pub extra_no_tls : List (Bytes × Bytes)
  extra_no_tls =
      if is_xhttp cfg then (codes "mode", link_mode cfg) ∷ [] else (codes "ed", codes "2048") ∷ []

  -- What a client has to read from the link to port 443, and from the one to port 80.
  abbrev pub tls_target : Bytes → Bytes → SniEntry → Link
  tls_target uuid host e = record {
    user = uuid;
    address = e.sni;
    port = codes "443";
    params =
        (codes "type", net_type cfg)
        ∷ (codes "encryption", codes "none")
        ∷ (codes "security", codes "tls")
        ∷ (codes "path", safe_quote cfg.ws_path)
        ∷ (codes "host", tunnel_host_info cfg host)
        ∷ (codes "sni", tunnel_host_info cfg host)
        ∷ extra_tls;
    label = e.remark ++ codes " TLS";
  }

  abbrev pub no_tls_target : Bytes → Bytes → SniEntry → Link
  no_tls_target uuid host e = record {
    user = uuid;
    address = e.sni;
    port = codes "80";
    params =
        (codes "type", net_type cfg)
        ∷ (codes "encryption", codes "none")
        ∷ (codes "security", [])
        ∷ (codes "path", safe_quote cfg.ws_path)
        ∷ (codes "host", tunnel_host_info cfg host)
        ∷ extra_no_tls;
    label = e.remark ++ codes " NO TLS";
  }

  -- The values that go into a link unescaped hold none of its delimiters.
  pub record IsLinkable (uuid host : Bytes) (e : SniEntry) : Type 0 where
    pub user_plain : Lacks b'@' uuid
    pub address_plain : Lacks b':' e.sni
    pub host_plain : Lacks b'&' (tunnel_host_info cfg host) × Lacks b'#' (tunnel_host_info cfg host)
    pub mode_plain : Lacks b'&' (link_mode cfg) × Lacks b'#' (link_mode cfg)
    pub are_bytes : IsBytes cfg.ws_path × IsBytes e.remark

  pub tls_target-Describes :
      (uuid host : Bytes) (e : SniEntry)
      → IsLinkable uuid host e
      → Describes cfg uuid host e true (tls_target uuid host e)
  unfolding bytes_eq
  tls_target-Describes uuid host e h = record {
    for_user = refl;
    to_address = refl;
    to_port = refl;
    secured = refl;
    on_path = decode-safe_quote cfg.ws_path h.are_bytes.0;
    for_host = (tunnel_host_info cfg host, refl, tunnel_host_info-IsHost cfg host);
    named = refl;
    carried = elim (Bool-cases (is_xhttp cfg)) [
      | inl x ↦
          unfold net_type in
          rw x (inl (is_xhttp-true cfg x, refl, refl, (link_mode cfg, refl, link_mode-IsMode cfg)))
      | inr x ↦ unfold net_type in rw x (inr (is_xhttp-false cfg x, refl, refl, refl))
    ];
    labelled = refl;
  }

  pub no_tls_target-Describes :
      (uuid host : Bytes) (e : SniEntry)
      → IsLinkable uuid host e
      → Describes cfg uuid host e false (no_tls_target uuid host e)
  unfolding bytes_eq
  no_tls_target-Describes uuid host e h = record {
    for_user = refl;
    to_address = refl;
    to_port = refl;
    secured = refl;
    on_path = decode-safe_quote cfg.ws_path h.are_bytes.0;
    for_host = (tunnel_host_info cfg host, refl, tunnel_host_info-IsHost cfg host);
    named = elim (Bool-cases (is_xhttp cfg)) [ inl x ↦ rw x refl | inr x ↦ rw x refl ];
    carried = elim (Bool-cases (is_xhttp cfg)) [
      | inl x ↦
          unfold net_type in
          rw x (inl (is_xhttp-true cfg x, refl, refl, (link_mode cfg, refl, link_mode-IsMode cfg)))
      | inr x ↦ unfold net_type in rw x (inr (is_xhttp-false cfg x, refl, refl, refl))
    ];
    labelled = refl;
  }
