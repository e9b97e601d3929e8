-- ===== src/Main/Tests.antt =====
-- The theorems on a run, at packages that answer well.
use xray_vless_ws_go.Base.{◌++◌, Bytes, ◌≡◌, true, false, [], ◌∷◌, none, codes, All, ok}
use xray_vless_ws_go.Base.Script.{Leaves}
use xray_vless_ws_go.Text.Decimal.{pos}
use xray_vless_ws_go.Config.{Config, SniEntry, InboundAddr}
use xray_vless_ws_go.CfDeploy.{Cloudflare}
use xray_vless_ws_go.CfDeploy.Ensure.{Outcome, ensure, password_marker}
use xray_vless_ws_go.Main.Provisioning.{IsProvisioned, provisioned-IsProvisioned}
use xray_vless_ws_go.Main.{provisioned, Answers, Trace, close_engine, wait_group, run}
use xray_vless_ws_go.Main.Order.{Below, Down, IsGuarded}
use xray_vless_ws_go.Main.Order.Run.{run-InOrder, run-IsGuarded}

abbrev entry : SniEntry
entry = record { sni = codes "a.b"; remark = codes "My Node" }

abbrev local : InboundAddr
local = record { listen_ip = codes "127.0.0.1"; port = pos 8080 }

abbrev cfg : Config
cfg = record {
  raw_port = codes "8080";
  ports = local ∷ [];
  target_ip = codes "127.0.0.1";
  target_port = pos 8080;
  xray_uuid = codes "u";
  raw_fake_sni = codes "a.b#My Node";
  fake_sni = entry ∷ [];
  ws_path = codes "/a b";
  ws_host = codes "trycloudflare.com";
  transport = codes "ws";
  xhttp_mode = codes "auto";
  webhook_url = [];
  tunnel_token = [];
  debug_mode = false;
  log_password = codes "p";
  cloudflare_api_token = [];
  cloudflare_account_id = [];
  domain = [];
  worker_password = codes "w";
}

abbrev answers : Answers
answers = record {
  export_secret = λ w. none;
  load = λ w. ok cfg;
  ensure = λ w c. record { webhook_url = []; tunnel_token = codes "t"; error = none };
  marshal_indent = λ j. ok (codes "{}");
  start_engine = λ w contents. none;
  drained = λ w. false;
  find_binary = λ w. ok (codes "/bin/cloudflared");
}

run-InOrder_example :
    Leaves
      (λ w.
        Below 18 w
        × Down w
        × ((w' : Trace) × (w ≡ close_engine ∷ wait_group (answers.drained w') ∷ w')))
      (λ w. Below 18 w × Down w)
      (run answers true (pos 9999) [])
run-InOrder_example = run-InOrder answers true (pos 9999)

run-IsGuarded_example : Leaves (All IsGuarded) (All IsGuarded) (run answers true (pos 9999) [])
run-IsGuarded_example = run-IsGuarded answers true (pos 9999)

-- An account with nothing in it, where every call succeeds.
abbrev api : Cloudflare Unit
api = record {
  list_accounts = λ s. ok (record { id = codes "a"; name = codes "a" } ∷ []);
  list_namespaces = λ s account. ok [];
  create_namespace = λ s account title. (s, ok (record { id = title; name = title }));
  upload_script = λ s account script source namespace. (s, ok tt);
  attach_domain = λ s account hostname script zone. (s, ok tt);
  list_tunnels = λ s account name. ok [];
  create_tunnel = λ s account name. (s, ok (record { id = name; name = name }));
  tunnel_token = λ s account id. ok (codes "t");
  list_zones = λ s domain. ok (record { id = domain; name = domain } ∷ []);
  list_records = λ s zone hostname. ok [];
  create_record = λ s zone r. (s, ok tt);
  update_record = λ s zone id r. (s, ok tt);
}

abbrev deployed : Config
deployed = record cfg {
  cloudflare_api_token = codes "k";
  domain = codes "d.e";
  tunnel_token = codes "own";
}

abbrev quoted : Bytes → Bytes
quoted s = b'"' ∷ (s ++ b'"' ∷ [])

abbrev outcome : Outcome
outcome = (ensure quoted quoted password_marker api tt deployed).1

provisioned-IsProvisioned_example :
    IsProvisioned quoted quoted password_marker api deployed outcome (provisioned deployed outcome)
provisioned-IsProvisioned_example =
    provisioned-IsProvisioned quoted quoted password_marker api deployed tt
