-- ===== src/SmokeTest/Run.antt =====
-- cmd/xraycore-smoketest/main.go, `run`: what it opens and closes, the last action first, by the answers
-- of the network and of the embedded core. Its prints, and the echo server behind the listener, are
-- left out.
pub mod Open
pub mod Laws
use xray_vless_ws_go.Base.{
  ℕ, ◌==◌, Bool, true, false, not, List, [], ◌∷◌, ◌++◌, Option, none, some, Bytes, codes, Result,
  ok, err, if◌then◌else◌,
}
use xray_vless_ws_go.Base.Script.{Script, pure, fail, fail_if, ◌>>=◌, ◌>>◌, finally}
use xray_vless_ws_go.Text.Decimal.{ℤ, pos}
use xray_vless_ws_go.Text.Search.{contains}
use xray_vless_ws_go.Config.{Config}
use xray_vless_ws_go.Xray.Json.{Json}
use xray_vless_ws_go.Xray.BuildConfig.{BuildError, build_config}
use xray_vless_ws_go.SmokeTest.Outbound.{
  Patch, patched, no_object, no_outbounds, panicked, allow_private_ips,
}
use xray_vless_ws_go.SmokeTest.Vless.{
  VlessError, build_vless_request, strip_vless_response_header, await_payload,
}

-- The echo listener, the three listeners on the port of xray-core that are not its own, and the two
-- engines on it; the WebSocket and the TCP connection, and the body of the HTTP answer.
pub data Resource : Type 0 where
  echo reserved_port ws_engine released_port xhttp_engine : Resource
  ws_conn tcp_conn answer_body : Resource

pub data SmokeAction : Type 0 where
  opened closed : Resource → SmokeAction

pub data SmokeError : Type 0 where
  starting_echo reserving_port marshaling starting dialing writing reading closing :
      Bytes → SmokeError
  port_not_released not_accepting : Bytes → SmokeError
  building : BuildError → SmokeError
  unmarshaling not_patched panic mismatch following_up : SmokeError
  building_request parsing_response : VlessError → SmokeError

-- The error of each call, `none` where it succeeds; the ports that were given, the UUID that was drawn,
-- what a read of the connection gives, and Go's encodings.
pub record SmokeAnswers : Type 0 where
  pub listen_echo : Option Bytes
  pub echo_port : ℤ
  pub reserve : Option Bytes
  pub xray_port : ℤ
  pub uuid : Bytes
  pub marshal_indent : Json → Result Bytes Bytes
  pub unmarshal : Bytes → Option Json
  pub marshal : Json → Result Bytes Bytes
  pub start : Bytes → Option Bytes
  pub dial : Option Bytes
  pub parse_uuid : Bytes → Result Bytes Bytes
  pub parse_ipv4 : Bytes → Option Bytes
  pub write : Bytes → Option Bytes
  pub first_frame : Result Bytes Bytes
  pub frames : List Bytes
  pub close : Option Bytes
  pub listen_again : Option Bytes
  pub start_xhttp : Bytes → Option Bytes
  pub dial_tcp : Option Bytes
  pub gets : Bool
  pub close_xhttp : Option Bytes

abbrev pub Smoke : Type 0 → Type 0
Smoke A = Script (List SmokeAction) SmokeError A

abbrev pub log : SmokeAction → Smoke Unit
log a w = (ok tt, a ∷ w)

abbrev pub check : Option Bytes → (Bytes → SmokeError) → Smoke Unit
check none f w = (ok tt, w)
check (some e) f w = (err (f e), w)

abbrev pub lift : {E A : Type 0} → (E → SmokeError) → Result E A → Smoke A
lift f (ok a) w = (ok a, w)
lift f (err e) w = (err (f e), w)

-- What both configurations have; every other field has its zero value.
abbrev pub smoke_config : SmokeAnswers → Bytes → Bytes → Config
smoke_config a transport xhttp_mode = record {
  raw_port = [];
  ports = record { listen_ip = codes "127.0.0.1"; port = a.xray_port } ∷ [];
  target_ip = [];
  target_port = pos 0;
  xray_uuid = a.uuid;
  raw_fake_sni = [];
  fake_sni = [];
  ws_path = codes "/smoketest";
  ws_host = [];
  transport = transport;
  xhttp_mode = xhttp_mode;
  webhook_url = [];
  tunnel_token = [];
  debug_mode = false;
  log_password = [];
  cloudflare_api_token = [];
  cloudflare_account_id = [];
  domain = [];
  worker_password = [];
}

abbrev pub patch_result : SmokeAnswers → Patch → Smoke Bytes
patch_result a (patched j) = lift marshaling (a.marshal j)
patch_result a no_object = fail not_patched
patch_result a no_outbounds = fail not_patched
patch_result a panicked = fail panic

abbrev pub decoded : SmokeAnswers → Option Json → Smoke Bytes
decoded a none = fail unmarshaling
decoded a (some j) = patch_result a (allow_private_ips j)

-- `BuildConfig` and `allowPrivateIPsForSmokeTest`.
unfoldable pub config_bytes : SmokeAnswers → Config → Smoke Bytes
unfolding build_config allow_private_ips ◌>>=◌
config_bytes a cfg = lift building (build_config a.marshal_indent (some cfg)) >>= λ bytes.
    decoded a (a.unmarshal bytes)

abbrev pub ping : Bytes
ping = codes "PING-FROM-SMOKETEST"

abbrev pub get_answer : Bool → Smoke Unit
get_answer true = log (opened answer_body) >> log (closed answer_body)
get_answer false = pure tt

-- The probes of the engine for XHTTP, which is closed on both paths.
unfoldable pub probe_xhttp : SmokeAnswers → Option Bytes → Smoke Unit
unfolding ◌>>=◌
probe_xhttp a (some e) = log (closed xhttp_engine) >> fail (not_accepting e)
probe_xhttp a none =
    log (opened tcp_conn)
    >> log (closed tcp_conn)
    >> get_answer a.gets
    >> log (closed xhttp_engine)
    >> check a.close_xhttp closing

unfoldable pub run_xhttp : SmokeAnswers → Smoke Unit
unfolding config_bytes probe_xhttp ◌>>=◌
run_xhttp a = config_bytes a (smoke_config a (codes "xhttp") (codes "auto")) >>= λ bytes.
    check (a.start_xhttp bytes) starting >> log (opened xhttp_engine) >> probe_xhttp a a.dial_tcp

abbrev pub whole : Option Bytes → Smoke Bytes
whole none = fail following_up
whole (some body) = pure body

-- The ping comes back, in as many frames as it takes.
unfoldable pub receive : SmokeAnswers → Bytes → Smoke Unit
unfolding await_payload contains ◌>>=◌
receive a body = whole (await_payload ping body a.frames) >>= λ body'.
    fail_if (not (contains body' ping)) mismatch

unfoldable pub read_answer : SmokeAnswers → Bytes → Smoke Unit
unfolding strip_vless_response_header receive ◌>>=◌
read_answer a frame =
    lift parsing_response (strip_vless_response_header frame) >>= λ body. receive a body

-- The request over the WebSocket.
unfoldable pub exchange : SmokeAnswers → Smoke Unit
unfolding build_vless_request read_answer ◌>>=◌
exchange a =
    lift building_request
      (build_vless_request a.parse_uuid a.parse_ipv4 a.uuid (codes "127.0.0.1") a.echo_port)
    >>= λ request.
        check (a.write (request ++ ping)) writing
        >> (lift reading a.first_frame >>= λ frame. read_answer a frame)

-- Behind the exchange the engine is closed, and its port has to be free at once.
unfoldable pub run_conn : SmokeAnswers → Smoke Unit
unfolding exchange run_xhttp ◌>>=◌
run_conn a =
    exchange a
    >> log (closed ws_engine)
    >> check a.close closing
    >> check a.listen_again port_not_released
    >> log (opened released_port)
    >> log (closed released_port)
    >> run_xhttp a

unfoldable pub run_ws : SmokeAnswers → Smoke Unit
unfolding run_conn ◌>>=◌ finally
run_ws a =
    check a.dial dialing >> log (opened ws_conn) >> finally (run_conn a) (λ w. closed ws_conn ∷ w)

unfoldable pub run_echo : SmokeAnswers → Smoke Unit
unfolding config_bytes run_ws ◌>>=◌ finally
run_echo a =
    check a.reserve reserving_port
    >> log (opened reserved_port)
    >> log (closed reserved_port)
    >> config_bytes a (smoke_config a [] [])
    >>= λ bytes.
        check (a.start bytes) starting
        >> log (opened ws_engine)
        >> finally (run_ws a) (λ w. closed ws_engine ∷ w)

-- Each `defer` is a `finally`. A panic runs them too.
unfoldable pub run : SmokeAnswers → Smoke Unit
unfolding run_echo ◌>>=◌ finally
run a =
    check a.listen_echo starting_echo
    >> log (opened echo)
    >> finally (run_echo a) (λ w. closed echo ∷ w)
