-- ===== src/CfDeploy/HttpTests.antt =====
-- The theorem on a deployment over HTTP, at a transport that grants everything.
use xray_vless_ws_go.Base.{true, false, [], ◌∷◌, some, Bytes, codes}
use xray_vless_ws_go.Text.Decimal.{pos}
use xray_vless_ws_go.Config.{Config}
use xray_vless_ws_go.CfDeploy.{Named}
use xray_vless_ws_go.CfDeploy.Client.{Envelope, answered}
use xray_vless_ws_go.CfDeploy.Ensure.{ensure}
use xray_vless_ws_go.CfDeploy.Http.{Codec, Transport, api}
use xray_vless_ws_go.CfDeploy.Http.Deployment.{Deployed, ensure-Deployed}

abbrev granted : Envelope
granted = record { success = true; errors = []; result = codes "{}" }

abbrev an_id : Named
an_id = record { id = codes "1"; name = codes "n" }

abbrev codec : Codec
codec = record {
  envelope = λ raw. some granted;
  named = λ raw. some an_id;
  named_list = λ raw. some (an_id ∷ []);
  namespace = λ raw. some an_id;
  namespace_list = λ raw. some [];
  record_list = λ raw. some [];
  string = λ raw. some (codes "t");
  marshal = λ j. codes "{}";
  form = λ parts. (codes "--x--", codes "multipart/form-data; boundary=x");
  encode = λ values. codes "q";
}

abbrev net : Transport Unit
net = record {
  get = λ s request. answered 200 (codes "{}");
  send = λ s request. (s, answered 200 (codes "{}"));
}

abbrev cfg : Config
cfg = record {
  raw_port = codes "80";
  ports = [];
  target_ip = codes "127.0.0.1";
  target_port = pos 80;
  xray_uuid = codes "u";
  raw_fake_sni = [];
  fake_sni = [];
  ws_path = codes "/t";
  ws_host = codes "x.d";
  transport = codes "websocket";
  xhttp_mode = codes "auto";
  webhook_url = [];
  tunnel_token = [];
  debug_mode = false;
  log_password = codes "p";
  cloudflare_api_token = codes "c";
  cloudflare_account_id = [];
  domain = codes "d";
  worker_password = codes "w";
}

abbrev template : Bytes
template = codes "const PASSWORD = \"__WORKER_PASSWORD__\";"

ensure-Deployed_example :
    (account : Bytes) × Deployed cfg account
      (ensure (λ s. s) (λ s. s) template (api codec net (codes "c")) (tt, []) cfg)
ensure-Deployed_example = ensure-Deployed (λ s. s) (λ s. s) template codec net (codes "c") cfg tt
