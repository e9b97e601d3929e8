-- ===== src/LinkGen/Tests.antt =====
-- The theorems on the links, each at one configuration.
use xray_vless_ws_go.Base.{false, [], ◌∷◌, arith, Bytes, codes}
use xray_vless_ws_go.Text.Decimal.{pos}
use xray_vless_ws_go.Config.{Config, SniEntry}
use xray_vless_ws_go.LinkGen.Links.{build_links, tunnel_host_info, link_mode}
use xray_vless_ws_go.LinkGen.Links.Targets.{IsLinkable}
use xray_vless_ws_go.LinkGen.Links.Laws.{Links, build_links-Links}

abbrev spaced : Bytes
spaced = codes "a b/c"

abbrev entry : SniEntry
entry = record { sni = codes "a.b"; remark = codes "My Node" }

abbrev cfg : Config
cfg = record {
  raw_port = codes "80";
  ports = [];
  target_ip = codes "127.0.0.1";
  target_port = pos 80;
  xray_uuid = codes "u";
  raw_fake_sni = codes "a.b#My Node";
  fake_sni = entry ∷ [];
  ws_path = codes "/t";
  ws_host = codes "trycloudflare.com";
  transport = codes "xhttp";
  xhttp_mode = codes "auto";
  webhook_url = [];
  tunnel_token = [];
  debug_mode = false;
  log_password = codes "p";
  cloudflare_api_token = [];
  cloudflare_account_id = [];
  domain = [];
  worker_password = codes "w";
}

cfg-IsLinkable : IsLinkable cfg (codes "u") (codes "x.y") entry
unfolding tunnel_host_info link_mode
cfg-IsLinkable = record {
  user_plain = ground arith;
  address_plain = ground arith;
  host_plain = ground arith;
  mode_plain = ground arith;
  are_bytes = ground arith;
}

build_links-Links_example :
    Links cfg (codes "u") (codes "x.y") (entry ∷ []) (build_links cfg (codes "u") (codes "x.y"))
build_links-Links_example = build_links-Links cfg (codes "u") (codes "x.y") (cfg-IsLinkable, tt)
