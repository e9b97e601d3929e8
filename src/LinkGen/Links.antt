-- ===== src/LinkGen/Links.antt =====
-- internal/linkgen/links.go.
pub mod Reader
pub mod Described
pub mod Laws
pub mod Targets
use xray_vless_ws_go.Base.{
  Bool, true, false, not, ◌&&◌, List, [], ◌∷◌, ◌++◌, Bytes, codes, bytes_eq, concat, if◌then◌else◌,
}
use xray_vless_ws_go.Config.{Config, SniEntry}
use xray_vless_ws_go.LinkGen.Quote.{safe_quote}

-- WS_HOST, unless it is empty or still the default of a quick tunnel.
unfoldable pub tunnel_host_info : Config → Bytes → Bytes
tunnel_host_info cfg tunnel_host =
    if not (bytes_eq cfg.ws_host []) && not (bytes_eq cfg.ws_host (codes "trycloudflare.com"))
    then cfg.ws_host
    else tunnel_host

unfoldable pub is_xhttp : Config → Bool
is_xhttp cfg = bytes_eq cfg.transport (codes "xhttp")

unfoldable pub net_type : Config → Bytes
unfolding is_xhttp
net_type cfg = if is_xhttp cfg then codes "xhttp" else codes "ws"

unfoldable pub link_mode : Config → Bytes
link_mode cfg = if bytes_eq cfg.xhttp_mode [] then codes "auto" else cfg.xhttp_mode

unfoldable pub extra_params_tls : Config → Bytes
unfolding is_xhttp link_mode
extra_params_tls cfg =
    if is_xhttp cfg then codes "&alpn=h2&mode=" ++ link_mode cfg else codes "&ed=2048"

unfoldable pub extra_params_no_tls : Config → Bytes
unfolding is_xhttp link_mode
extra_params_no_tls cfg = if is_xhttp cfg then codes "&mode=" ++ link_mode cfg else codes "&ed=2048"

-- The two format strings.
unfoldable pub tls_link : Config → Bytes → Bytes → SniEntry → Bytes
unfolding tunnel_host_info net_type extra_params_tls
tls_link cfg uuid tunnel_host entry =
    let host = tunnel_host_info cfg tunnel_host in
    concat (
      codes "vless://"
      ∷ uuid
      ∷ codes "@"
      ∷ entry.sni
      ∷ codes ":443?type="
      ∷ net_type cfg
      ∷ codes "&encryption=none&security=tls&path="
      ∷ safe_quote cfg.ws_path
      ∷ codes "&host="
      ∷ host
      ∷ codes "&sni="
      ∷ host
      ∷ extra_params_tls cfg
      ∷ codes "#"
      ∷ safe_quote entry.remark
      ∷ codes "%20TLS"
      ∷ [])

unfoldable pub no_tls_link : Config → Bytes → Bytes → SniEntry → Bytes
unfolding tunnel_host_info net_type extra_params_no_tls
no_tls_link cfg uuid tunnel_host entry = concat (
    codes "vless://"
    ∷ uuid
    ∷ codes "@"
    ∷ entry.sni
    ∷ codes ":80?type="
    ∷ net_type cfg
    ∷ codes "&encryption=none&security=&path="
    ∷ safe_quote cfg.ws_path
    ∷ codes "&host="
    ∷ tunnel_host_info cfg tunnel_host
    ∷ extra_params_no_tls cfg
    ∷ codes "#"
    ∷ safe_quote entry.remark
    ∷ codes "%20NO%20TLS"
    ∷ [])

-- The loop over FAKE_SNI: two links for each entry.
unfoldable pub links_of : Config → Bytes → Bytes → List SniEntry → List Bytes
unfolding tls_link no_tls_link
links_of cfg uuid tunnel_host [] = []
links_of cfg uuid tunnel_host (entry ∷ entries) =
    tls_link cfg uuid tunnel_host entry
    ∷ no_tls_link cfg uuid tunnel_host entry
    ∷ links_of cfg uuid tunnel_host entries

unfoldable pub build_links : Config → Bytes → Bytes → List Bytes
unfolding links_of
build_links cfg uuid tunnel_host = links_of cfg uuid tunnel_host cfg.fake_sni
