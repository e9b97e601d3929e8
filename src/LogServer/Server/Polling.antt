-- ===== src/LogServer/Server/Polling.antt =====
-- A poll of /logs by a client that has the first lines of the history.
use xray_vless_ws_go.Base.{ℕ, suc, ◌<◌, ◌≡◌, ap, List, ◌++◌, length}
use xray_vless_ws_go.Text.Decimal.{ℤ, itoa, int_limit}
use xray_vless_ws_go.Text.Decimal.RoundTrip.{atoi-itoa}
use xray_vless_ws_go.LogServer.Ring.{LogLine, capacity, new_ring}
use xray_vless_ws_go.LogServer.Ring.History.{Entry, push_all, number, take_last}
use xray_vless_ws_go.LogServer.Ring.Delivery.{since-take_last}
use xray_vless_ws_go.LogServer.Server.{Request, Server, new_logs, plain}
use xray_vless_ws_go.LogServer.Server.Content.{handle_logs}

-- The client sends the number of lines that it has, below 2^63. The answer holds the newest of the
-- lines pushed since then, as many as the buffer holds, and the new number.
pub handle_logs-take_last :
    (s : Server) (r : Request) (max_logs : ℤ) (done es : List Entry)
    → s.ring ≡ push_all (new_ring max_logs) (done ++ es)
    → r.last_id ≡ itoa (length done)
    → length done < int_limit
    → handle_logs s r
      ≡ plain 200 (
          new_logs
            (take_last (capacity max_logs) (number (suc (length done)) es))
            (length (done ++ es)))
unfolding handle_logs
handle_logs-take_last s r max_logs done es ring id small =
    rw (ring, id, atoi-itoa (length done) small)
      (ap (λ (x : List LogLine × ℕ). plain 200 (new_logs x.0 x.1))
        (since-take_last done es max_logs))
