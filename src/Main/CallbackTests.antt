-- ===== src/Main/CallbackTests.antt =====
-- The theorem on the callbacks, at a disk that is a function and writes every file.
use xray_vless_ws_go.Base.{
  ◌≡◌, refl, ap, false, [], ◌∷◌, Option, none, some, arith, Bytes, codes, All, bytes_eq,
  bytes_eq_refl, bytes_eq_ne, Result, ok, if◌then◌else◌,
}
use xray_vless_ws_go.Text.Decimal.{pos}
use xray_vless_ws_go.Text.Split.{join}
use xray_vless_ws_go.LogServer.Ring.{new_ring}
use xray_vless_ws_go.LogServer.Status.{new_status_store}
use xray_vless_ws_go.LogServer.Server.{Request, Server, World, subscription, plain}
use xray_vless_ws_go.LogServer.Server.Content.{handle_vless_info, handle_subscription}
use xray_vless_ws_go.Config.{Config, SniEntry, InboundAddr}
use xray_vless_ws_go.LinkGen.Quote.{safe_quote}
use xray_vless_ws_go.LinkGen.Links.{
  build_links, links_of, tls_link, no_tls_link, tunnel_host_info, net_type, is_xhttp,
  extra_params_tls, extra_params_no_tls,
}
use xray_vless_ws_go.LinkGen.Export.{Disk, ExportedInfo}
use xray_vless_ws_go.LinkGen.Export.Served.{IsDisk, IsLine, links_of_response}
use xray_vless_ws_go.Main.Callbacks.{Exported, config_path, json_path, export_links}
use xray_vless_ws_go.Main.Callbacks.Published.{export_links-served}

abbrev Files : Type 0
Files = Bytes → Option Bytes

abbrev disk : Disk Files
disk = record {
  write_file = λ path content files. (none, λ p. if bytes_eq path p then some content else files p);
  read_file = λ files path. files path;
}

disk-IsDisk : IsDisk disk
disk-IsDisk = record {
  written =
      λ path content files e. ap (λ b. if b then some content else files path) (bytes_eq_refl path);
  others = λ path other content files ne.
      ap (λ b. if b then some content else files other) (bytes_eq_ne path other ne);
}

abbrev no_files : Files
no_files path = none

abbrev entry : SniEntry
entry = record { sni = codes "a.b"; remark = codes "My Node" }

abbrev local : InboundAddr
local = record { listen_ip = codes "127.0.0.1"; port = pos 8080 }

abbrev cfg : Config
cfg = record {
  raw_port = codes "8080";
  ports = local ∷ [];
  target_ip = codes "127.0.0.1";
  target_port = pos 8080;
  xray_uuid = codes "u";
  raw_fake_sni = codes "a.b#My Node";
  fake_sni = entry ∷ [];
  ws_path = codes "/a b";
  ws_host = codes "trycloudflare.com";
  transport = codes "ws";
  xhttp_mode = codes "auto";
  webhook_url = [];
  tunnel_token = [];
  debug_mode = false;
  log_password = codes "p";
  cloudflare_api_token = [];
  cloudflare_account_id = [];
  domain = [];
  worker_password = codes "w";
}

abbrev marshal_indent : ExportedInfo → Result Bytes Bytes
marshal_indent info = ok (codes "{}")

abbrev after : Exported Files
after =
    export_links disk marshal_indent cfg (codes "h") (codes "1.2.3.4") (pos 1) (new_status_store 5)
      no_files

abbrev server : Server
server = record {
  password = codes "pw";
  status = after.status;
  domain = [];
  config_path = config_path;
  json_path = json_path;
  ring = new_ring (pos 3);
  auth_secret = codes "s";
}

abbrev world : World
world = record { now = 5; since_now = 6; until_now = 7; read_file = after.state }

abbrev request : Request
request = record {
  method = codes "GET";
  path = codes "/sub";
  cookie = none;
  authorization = [];
  basic_password = none;
  content_type = [];
  json_password = none;
  form_password = [];
  last_id = [];
  raw = codes "1";
}

links-IsLine : All IsLine (build_links cfg (codes "u") (codes "h"))
unfolding build_links links_of tls_link no_tls_link tunnel_host_info net_type is_xhttp
    extra_params_tls extra_params_no_tls safe_quote bytes_eq
links-IsLine = ((λ e. cc, ground arith), ((λ e. cc, ground arith), tt))

export_links-served_example :
    (links_of_response (handle_vless_info (λ text. none) server world).body
      ≡ some (build_links cfg (codes "u") (codes "h")))
    × (handle_subscription server world request
        ≡ plain 200 (subscription (join (b'\n' ∷ []) (build_links cfg (codes "u") (codes "h")))))
    × (server.status.hostname ≡ codes "h")
export_links-served_example =
    export_links-served disk marshal_indent (λ text. none) cfg (codes "h") (codes "1.2.3.4") (pos 1)
      (new_status_store 5) no_files server world request disk-IsDisk refl refl links-IsLine refl
      refl refl
