-- ===== src/CfDeploy/ClientTests.antt =====
-- The theorem on the requests, at one answer.
use xray_vless_ws_go.Base.{◌≡◌, ◌↔◌, true, [], some, codes, ok}
use xray_vless_ws_go.CfDeploy.Client.{Envelope, answered, do_request}
use xray_vless_ws_go.CfDeploy.Client.Laws.{Succeeds, do_request-Succeeds}

abbrev envelope : Envelope
envelope = record { success = true; errors = []; result = codes "[]" }

do_request-Succeeds_example :
    (do_request (λ raw. some envelope) (codes "GET") (codes "/zones") (answered 200 (codes "{}"))
      ≡ ok (codes "[]"))
    ↔ Succeeds (λ raw. some envelope) (answered 200 (codes "{}")) (codes "[]")
do_request-Succeeds_example =
    do_request-Succeeds (λ raw. some envelope) (codes "GET") (codes "/zones")
      (answered 200 (codes "{}")) (codes "[]")
