-- ===== src/Ci/BridgeTests.antt =====
-- The theorem on the bridge, at one run of a workflow.
use xray_vless_ws_go.Base.{ℕ, none, codes, bytes_eq, ok, if◌then◌else◌}
use xray_vless_ws_go.Ci.Bridge.{Runner}

abbrev runner : Runner ℕ
runner = record {
  getenv = λ key.
      if bytes_eq key (codes "BRIDGE_WORKFLOWS") then codes "True" else codes "refs/heads/main";
  new_request = λ r. none;
  send = λ r s. (ok (200, codes "{}"), s);
  decode_run = λ body. ok (codes "7");
  event_inputs = λ path. none;
  marshal = λ j. ok (codes "{}");
}
