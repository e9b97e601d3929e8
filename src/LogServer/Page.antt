-- ===== src/LogServer/Page.antt =====
-- The log view of web/logserver/static/app.js, and its polls of the server.
pub mod Laws
use xray_vless_ws_go.Base.{
  ℕ, zero, suc, get_elem?, ◌≡◌, refl, Bool, List, [], ◌∷◌, ◌++◌, Option, none, some, ◌==◌, ◌&&◌,
  leb, ltb, if◌then◌else◌,
}
use xray_vless_ws_go.Text.Decimal.{itoa}
use xray_vless_ws_go.LogServer.Ring.{LogLine, trim_oldest, push}
use xray_vless_ws_go.LogServer.Ring.History.{Entry}
use xray_vless_ws_go.LogServer.Server.{
  Request, Server, Response, Body, new_logs, unauthorized, plain,
}
use xray_vless_ws_go.LogServer.Server.Content.{handle_logs}

-- `lastLogId`, the entries of the log container, and `allLogs`.
pub record Page : Type 0 where
  pub last_log_id : ℕ
  pub container : List LogLine
  pub all_logs : List LogLine

abbrev pub new_page : Page
new_page = record { last_log_id = 0; container = []; all_logs = [] }

-- `allLogs.push(log); if (allLogs.length > 500) allLogs.shift()` for each line.
unfoldable pub remember : List LogLine → List LogLine → List LogLine
unfolding trim_oldest
remember all_logs [] = all_logs
remember all_logs (l ∷ ls) = remember (trim_oldest 500 (all_logs ++ l ∷ [])) ls

-- The container holds a placeholder until the first lines come.
unfoldable pub show_logs : Page → Body → Page
unfolding remember
show_logs p (new_logs (l ∷ ls) last_id) = record {
  last_log_id = last_id;
  container = (if p.last_log_id == 0 then [] else p.container) ++ l ∷ ls;
  all_logs = remember p.all_logs (l ∷ ls);
}
show_logs p _ = p

-- `fetchLogs`, with the response that `fetch` resolves to, `none` where it throws: `res.ok` is a status
-- from 200 to 299.
unfoldable pub fetch_logs : Page → Option Response → Page
unfolding show_logs
fetch_logs p none = p
fetch_logs p (some r) = if leb 200 r.code && ltb r.code 300 then show_logs p r.body else p

-- What happens, in its order: a line is pushed at the server; the page sends a fetch, with its
-- `lastLogId` of that time; and one of the fetches on the way, by its place among them, is answered by
-- the server, refused for a session that has expired, or lost. A poll by the timer sends a fetch whether
-- or not the one before has ended.
pub data PageEvent : Type 0 where
  pushed : Entry → PageEvent
  sent : PageEvent
  answered refused lost : ℕ → PageEvent

abbrev pub remove : List ℕ → ℕ → List ℕ
remove [] i = []
remove (x ∷ xs) zero = xs
remove (x ∷ xs) (suc i) = x ∷ remove xs i

-- What the server answers to the fetch at that place, if there is one.
abbrev pub reply : Server → Request → Page → Option ℕ → Page
reply s r p none = p
reply s r p (some id) = fetch_logs p (some (handle_logs s (record r { last_id = itoa id })))

-- The page behind the events, from the fetches that are on the way.
unfoldable pub run_page : Server → Request → Page → List ℕ → List PageEvent → Page
unfolding push fetch_logs handle_logs plain
run_page s r p flights [] = p
run_page s r p flights (pushed e ∷ events) =
    run_page (record s { ring = push s.ring e.time e.source e.text }) r p flights events
run_page s r p flights (sent ∷ events) = run_page s r p (flights ++ p.last_log_id ∷ []) events
run_page s r p flights (answered i ∷ events) =
    run_page s r (reply s r p (get_elem? flights i)) (remove flights i) events
run_page s r p flights (refused i ∷ events) =
    run_page s r (fetch_logs p (some (plain 401 unauthorized))) (remove flights i) events
run_page s r p flights (lost i ∷ events) =
    run_page s r (fetch_logs p none) (remove flights i) events
