-- ===== src/Xray/BuildConfig/Laws.antt =====
-- The inbounds of the configuration, and that the links lead to them.
use xray_vless_ws_go.Base.{
  ◌≡◌, refl, ap, ◌⊎◌, inl, inr, List, [], ◌∷◌, map, none, some, Bytes, codes, bytes_eq,
  if◌then◌else◌, Bool-cases, Result, err,
}
use xray_vless_ws_go.Config.{Config, InboundAddr}
use xray_vless_ws_go.LinkGen.Links.{is_xhttp, net_type, link_mode}
use xray_vless_ws_go.Xray.Json.{Json, items, list, get, find}
use xray_vless_ws_go.Xray.BuildConfig.{
  stream_settings, xhttp_settings, inbound, inbounds, xray_config, build_config, no_ports,
  marshaled, require_ports,
}
use xray_vless_ws_go.Xray.BuildConfig.Reader.{Inbound, read_inbound, read_all, read_inbounds}

module _ (cfg : Config) where
  -- What xray-core has to read for an address of PORT.
  abbrev pub target_inbound : InboundAddr → Inbound
  target_inbound p = record {
    listen = p.listen_ip;
    port = p.port;
    protocol = codes "vless";
    client = cfg.xray_uuid;
    network = net_type cfg;
    path = cfg.ws_path;
    mode = if is_xhttp cfg then some (link_mode cfg) else none;
  }

  pub read_inbound-inbound :
      (p : InboundAddr) → read_inbound (inbound cfg p) ≡ some (target_inbound p)
  unfolding read_inbound get find inbound stream_settings xhttp_settings is_xhttp net_type link_mode
  read_inbound-inbound p = elim (Bool-cases (bytes_eq cfg.transport (codes "xhttp"))) [
    | inl e ↦ rw e refl
    | inr e ↦ rw e refl
  ]

  read_all-inbounds :
      (ps : List InboundAddr)
      → read_all (list (items (inbounds cfg ps))) ≡ some (map target_inbound ps)
  unfolding read_all inbounds
  read_all-inbounds [] = refl
  read_all-inbounds (p ∷ ps) = rw (read_inbound-inbound p, read_all-inbounds ps) refl

  pub read_inbounds-xray_config :
      read_inbounds (xray_config cfg) ≡ some (map target_inbound cfg.ports)
  unfolding read_inbounds xray_config get find
  read_inbounds-xray_config = read_all-inbounds cfg.ports

-- `BuildConfig` marshals a tree in which xray-core reads exactly one VLESS inbound for each address of
-- PORT, in order, with its address and port, the client's id, and the transport, path and mode of the
-- configuration; it fails where there is no address, and where the tree is not marshalled.
build_config-inbounds :
    (marshal_indent : Json → Result Bytes Bytes) (cfg : Config)
    → (build_config marshal_indent (some cfg) ≡ err no_ports) × (cfg.ports ≡ [])
      ⊎ ((j : Json) × (read_inbounds j ≡ some (map (target_inbound cfg) cfg.ports))
          × (build_config marshal_indent (some cfg) ≡ marshaled marshal_indent (marshal_indent j)))
unfolding build_config
build_config-inbounds marshal_indent cfg = by_ports cfg.ports refl
  where
    same :
        {ps : List InboundAddr}
        → cfg.ports ≡ ps
        → build_config marshal_indent (some cfg)
          ≡ require_ports marshal_indent ps
              (marshaled marshal_indent (marshal_indent (xray_config cfg)))
    same e =
        ap
          (λ ps.
            require_ports marshal_indent ps
              (marshaled marshal_indent (marshal_indent (xray_config cfg))))
          e

    by_ports :
        (ps : List InboundAddr)
        → cfg.ports ≡ ps
        → (build_config marshal_indent (some cfg) ≡ err no_ports) × (cfg.ports ≡ [])
          ⊎ ((j : Json) × (read_inbounds j ≡ some (map (target_inbound cfg) cfg.ports))
              × (build_config marshal_indent (some cfg)
                  ≡ marshaled marshal_indent (marshal_indent j)))
    by_ports [] e = inl (same e, e)
    by_ports (p ∷ ps) e = inr (xray_config cfg, read_inbounds-xray_config cfg, same e)
