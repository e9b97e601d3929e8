-- ===== src/LinkGen/Links/Laws.antt =====
-- What a client reads from the links of a configuration.
use xray_vless_ws_go.Base.{
  Bool, true, false, ◌≡◌, refl, ap, ◌∙◌, inl, inr, List, [], ◌∷◌, ◌++◌, append_assoc, append-nil,
  some, arith, Bytes, codes, map, Bool-cases, All,
}
use xray_vless_ws_go.Text.Split.{join}
use xray_vless_ws_go.Text.Split.Laws.{Lacks}
use xray_vless_ws_go.Config.{Config, SniEntry}
use xray_vless_ws_go.LinkGen.Quote.{safe_quote}
use xray_vless_ws_go.LinkGen.Quote.Decode.{decode, decode-append, append_to}
use xray_vless_ws_go.LinkGen.Quote.Safe.{IsInert, safe_quote-IsInert}
use xray_vless_ws_go.LinkGen.Links.{
  tunnel_host_info, is_xhttp, net_type, link_mode, tls_link, no_tls_link, links_of, build_links,
}
use xray_vless_ws_go.LinkGen.Links.Reader.{
  Link, IsParam, read_link, plain-IsParam, read_link-show, show_param,
}
use xray_vless_ws_go.LinkGen.Links.Described.{Describes}
use xray_vless_ws_go.LinkGen.Links.Targets.{
  extra_tls, extra_no_tls, tls_target, no_tls_target, IsLinkable, tls_target-Describes,
  no_tls_target-Describes,
}

module _ (cfg : Config) where
  All-Lacks : (s : Bytes) → All IsInert s → Lacks b'&' s × Lacks b'#' s
  All-Lacks [] h = (tt, tt)
  All-Lacks (c ∷ s) (hc, hs) =
      let rest = All-Lacks s hs in ((hc.no_query.1, rest.0), (hc.no_fragment, rest.1))

  net_type-Lacks : Lacks b'&' (net_type cfg) × Lacks b'#' (net_type cfg)
  unfolding net_type
  net_type-Lacks = elim (Bool-cases (is_xhttp cfg)) [
    | inl e ↦ rw e (omega arith)
    | inr e ↦ rw e (omega arith)
  ]

  module _ (uuid host : Bytes) (e : SniEntry) (h : IsLinkable cfg uuid host e) where
    -- The parameters that every link has, before those of its kind.
    abbrev common : Bytes → List (Bytes × Bytes) → List (Bytes × Bytes)
    common security rest =
        (codes "encryption", codes "none")
        ∷ (codes "security", security)
        ∷ (codes "path", safe_quote cfg.ws_path)
        ∷ (codes "host", tunnel_host_info cfg host)
        ∷ rest

    common-IsParam :
        (security : Bytes) (rest : List (Bytes × Bytes))
        → Lacks b'&' security × Lacks b'#' security
        → All IsParam rest
        → All IsParam (common security rest)
    common-IsParam security rest hs hr = (
      plain-IsParam (codes "encryption") (codes "none") (omega arith) (omega arith),
      (
        plain-IsParam (codes "security") security (omega arith) hs,
        (
          plain-IsParam (codes "path") (safe_quote cfg.ws_path) (omega arith)
              (All-Lacks (safe_quote cfg.ws_path) (safe_quote-IsInert cfg.ws_path h.are_bytes.0)),
          (plain-IsParam (codes "host") (tunnel_host_info cfg host) (omega arith) h.host_plain, hr),
        ),
      ),
    )

    -- A link with these parameters, laid out in full, is read as its parts.
    read_laid_out :
        (port security suffix label : Bytes) (rest : List (Bytes × Bytes))
        → Lacks b'?' port
        → Lacks b'&' security × Lacks b'#' security
        → All IsParam rest
        → decode suffix ≡ some label
        → read_link (
            codes "vless://"
            ++ (uuid
                ++ b'@'
                  ∷ (e.sni
                      ++ b':'
                        ∷ (port
                            ++ b'?'
                              ∷ (join (b'&' ∷ []) (
                                    map show_param
                                      ((codes "type", net_type cfg) ∷ common security rest))
                                  ++ b'#' ∷ (safe_quote e.remark ++ suffix))))))
          ≡ some (record {
            user = uuid;
            address = e.sni;
            port = port;
            params = (codes "type", net_type cfg) ∷ common security rest;
            label = e.remark ++ label;
          })
    read_laid_out port security suffix label rest hp hs hr d =
        read_link-show uuid e.sni port (safe_quote e.remark ++ suffix) (e.remark ++ label)
          (codes "type", net_type cfg) (common security rest) h.user_plain h.address_plain hp
          (
            plain-IsParam (codes "type") (net_type cfg) (omega arith) net_type-Lacks,
            common-IsParam security rest hs hr,
          )
          (decode-append e.remark suffix h.are_bytes.1 ∙ ap (append_to e.remark) d)

    sni-IsParam : IsParam (codes "sni", tunnel_host_info cfg host)
    sni-IsParam = plain-IsParam (codes "sni") (tunnel_host_info cfg host) (omega arith) h.host_plain

    mode-IsParam : IsParam (codes "mode", link_mode cfg)
    mode-IsParam = plain-IsParam (codes "mode") (link_mode cfg) (omega arith) h.mode_plain

    extra_tls-IsParam : All IsParam (extra_tls cfg)
    extra_tls-IsParam = elim (Bool-cases (is_xhttp cfg)) [
      | inl x ↦ rw x (
        plain-IsParam (codes "alpn") (codes "h2") (omega arith) (omega arith),
        (mode-IsParam, tt),
      )
      | inr x ↦ rw x (plain-IsParam (codes "ed") (codes "2048") (omega arith) (omega arith), tt)
    ]

    extra_no_tls-IsParam : All IsParam (extra_no_tls cfg)
    extra_no_tls-IsParam = elim (Bool-cases (is_xhttp cfg)) [
      | inl x ↦ rw x (mode-IsParam, tt)
      | inr x ↦ rw x (plain-IsParam (codes "ed") (codes "2048") (omega arith) (omega arith), tt)
    ]

    tls_link-laid_out :
        tls_link cfg uuid host e
        ≡ codes "vless://"
          ++ (uuid
              ++ b'@'
                ∷ (e.sni
                    ++ b':'
                      ∷ (codes "443"
                          ++ b'?'
                            ∷ (join (b'&' ∷ []) (
                                  map show_param (
                                    (codes "type", net_type cfg)
                                    ∷ common
                                        (codes "tls")
                                        ((codes "sni", tunnel_host_info cfg host) ∷ extra_tls cfg)))
                                ++ b'#' ∷ (safe_quote e.remark ++ codes "%20TLS")))))
    unfolding tls_link join
    tls_link-laid_out = elim (Bool-cases (is_xhttp cfg)) [
      | inl x ↦ rw x (simp (append_assoc, append-nil))
      | inr x ↦ rw x (simp (append_assoc, append-nil))
    ]

    no_tls_link-laid_out :
        no_tls_link cfg uuid host e
        ≡ codes "vless://"
          ++ (uuid
              ++ b'@'
                ∷ (e.sni
                    ++ b':'
                      ∷ (codes "80"
                          ++ b'?'
                            ∷ (join (b'&' ∷ []) (
                                  map show_param
                                    ((codes "type", net_type cfg) ∷ common [] (extra_no_tls cfg)))
                                ++ b'#' ∷ (safe_quote e.remark ++ codes "%20NO%20TLS")))))
    unfolding no_tls_link join
    no_tls_link-laid_out = elim (Bool-cases (is_xhttp cfg)) [
      | inl x ↦ rw x (simp (append_assoc, append-nil))
      | inr x ↦ rw x (simp (append_assoc, append-nil))
    ]

    pub read-tls_link : read_link (tls_link cfg uuid host e) ≡ some (tls_target cfg uuid host e)
    read-tls_link =
        ap read_link tls_link-laid_out
        ∙ read_laid_out (codes "443") (codes "tls") (codes "%20TLS") (codes " TLS")
            ((codes "sni", tunnel_host_info cfg host) ∷ extra_tls cfg) (omega arith) (omega arith)
            (sni-IsParam, extra_tls-IsParam) (unfold decode in refl)

    pub read-no_tls_link :
        read_link (no_tls_link cfg uuid host e) ≡ some (no_tls_target cfg uuid host e)
    read-no_tls_link =
        ap read_link no_tls_link-laid_out
        ∙ read_laid_out (codes "80") [] (codes "%20NO%20TLS") (codes " NO TLS") (extra_no_tls cfg)
            (omega arith) (tt, tt) extra_no_tls-IsParam (unfold decode in refl)

  -- A text that is read as a link of the entry.
  abbrev pub Offers : Bytes → Bytes → SniEntry → Bool → Bytes → Type 0
  Offers uuid host e tls s = (l : Link) × (read_link s ≡ some l) × Describes cfg uuid host e tls l

  -- The links of a list of entries, two for each and in the order of the list.
  abbrev pub Links : Bytes → Bytes → List SniEntry → List Bytes → Type 0
  Links uuid host [] [] = Unit {0}
  Links uuid host [] (l ∷ ls) = ⊥
  Links uuid host (e ∷ es) [] = ⊥
  Links uuid host (e ∷ es) (l ∷ []) = ⊥
  Links uuid host (e ∷ es) (l ∷ m ∷ ls) =
      Offers uuid host e true l × Offers uuid host e false m × Links uuid host es ls

  links_of-Links :
      (uuid host : Bytes) (es : List SniEntry)
      → All (IsLinkable cfg uuid host) es
      → Links uuid host es (links_of cfg uuid host es)
  unfolding links_of
  links_of-Links uuid host [] h = tt
  links_of-Links uuid host (e ∷ es) (he, hes) = (
    (
      tls_target cfg uuid host e,
      read-tls_link uuid host e he,
      tls_target-Describes cfg uuid host e he,
    ),
    (
      no_tls_target cfg uuid host e,
      read-no_tls_link uuid host e he,
      no_tls_target-Describes cfg uuid host e he,
    ),
    links_of-Links uuid host es hes,
  )

-- Where the values that go into a link unescaped hold none of its delimiters, every entry of the
-- configuration gives two links, for port 443 with TLS and port 80 without, which a client reads as what
-- the configuration says: the user, the address of the entry, WS_HOST or else the tunnel's host, the
-- path decoded, xhttp with its mode or WebSocket, and the remark.
pub build_links-Links :
    (cfg : Config) (uuid host : Bytes)
    → All (IsLinkable cfg uuid host) cfg.fake_sni
    → Links cfg uuid host cfg.fake_sni (build_links cfg uuid host)
unfolding build_links
build_links-Links cfg uuid host h = links_of-Links cfg uuid host cfg.fake_sni h
