-- ===== src/SmokeTest/Tests.antt =====
-- The theorems on the smoke test, each at one input.
use xray_vless_ws_go.Base.{
  ◌≡◌, refl, true, false, [], ◌∷◌, Option, none, some, Bytes, codes, Result, ok, arith,
}
use xray_vless_ws_go.Text.Decimal.{pos}
use xray_vless_ws_go.Config.{Config}
use xray_vless_ws_go.Xray.BuildConfig.{xray_config}
use xray_vless_ws_go.SmokeTest.Vless.{build_vless_request}
use xray_vless_ws_go.SmokeTest.Vless.Laws.{IsRequestOf, build_vless_request-IsRequestOf}
use xray_vless_ws_go.SmokeTest.Run.{SmokeAnswers, ping, run}
use xray_vless_ws_go.SmokeTest.Run.Open.{nothing, held, Exclusive}
use xray_vless_ws_go.SmokeTest.Run.Laws.{run-Exclusive}

abbrev an_id : Bytes
an_id = 1 ∷ 2 ∷ 3 ∷ 4 ∷ 5 ∷ 6 ∷ 7 ∷ 8 ∷ 9 ∷ 10 ∷ 11 ∷ 12 ∷ 13 ∷ 14 ∷ 15 ∷ 16 ∷ []

abbrev loopback : Bytes
loopback = 127 ∷ 0 ∷ 0 ∷ 1 ∷ []

abbrev parse_uuid : Bytes → Result Bytes Bytes
parse_uuid s = ok an_id

abbrev parse_ipv4 : Bytes → Option Bytes
parse_ipv4 s = some loopback

build_vless_request-IsRequestOf_example :
    IsRequestOf 40000 an_id loopback ping
      (build_vless_request parse_uuid parse_ipv4 (codes "u") (codes "127.0.0.1") (pos 40000))
build_vless_request-IsRequestOf_example =
    build_vless_request-IsRequestOf parse_uuid parse_ipv4 (codes "u") (codes "127.0.0.1") an_id
      loopback ping 40000 refl refl refl refl (omega arith)

abbrev cfg : Config
cfg = record {
  raw_port = [];
  ports = record { listen_ip = codes "127.0.0.1"; port = pos 40001 } ∷ [];
  target_ip = [];
  target_port = pos 0;
  xray_uuid = codes "u";
  raw_fake_sni = [];
  fake_sni = [];
  ws_path = codes "/smoketest";
  ws_host = [];
  transport = [];
  xhttp_mode = [];
  webhook_url = [];
  tunnel_token = [];
  debug_mode = false;
  log_password = [];
  cloudflare_api_token = [];
  cloudflare_account_id = [];
  domain = [];
  worker_password = [];
}

-- Every call succeeds up to the TCP connection to the second engine.
abbrev answers : SmokeAnswers
answers = record {
  listen_echo = none;
  echo_port = pos 40000;
  reserve = none;
  xray_port = pos 40001;
  uuid = codes "u";
  marshal_indent = λ j. ok (codes "{}");
  unmarshal = λ bytes. some (xray_config cfg);
  marshal = λ j. ok (codes "{}");
  start = λ bytes. none;
  dial = none;
  parse_uuid = parse_uuid;
  parse_ipv4 = parse_ipv4;
  write = λ bytes. none;
  first_frame = ok (0 ∷ 0 ∷ codes "PING-FROM");
  frames = codes "-SMOKETEST" ∷ [];
  close = none;
  listen_again = none;
  start_xhttp = λ bytes. none;
  dial_tcp = some (codes "refused");
  gets = true;
  close_xhttp = none;
}

run-Exclusive_example :
    let actions = (run answers []).1 in (held actions ≡ nothing) × Exclusive actions
run-Exclusive_example = run-Exclusive answers
