-- ===== src/Tunnel/Tests.antt =====
-- The theorems on the tunnel, each at one stream of lines or events.
use xray_vless_ws_go.Base.{
  ◌≡◌, refl, Bool, true, false, List, [], ◌∷◌, ◌++◌, none, some, Bytes, codes, bytes_eq, All,
  get_elem?,
}
use xray_vless_ws_go.Text.Search.{contains, has_prefix}
use xray_vless_ws_go.Text.Decimal.{pos}
use xray_vless_ws_go.Tunnel.Hostname.{
  is_label_byte, label_run, host_of, match_url, find_url, match_ansi, strip_ansi, is_banner,
  HostnameParser, new_hostname_parser, found_in, feed,
}
use xray_vless_ws_go.Tunnel.Hostname.Stream.{feed_all, silent, feed_all_after_banner}
use xray_vless_ws_go.Tunnel.Watch.{
  ReadyState, refused, answered, poll_ready_once, Event, polled, exited, closed, poll_closed, stuck,
  Watcher, start_state, watch,
}
use xray_vless_ws_go.Tunnel.Watch.Stuck.{NeverBack, watch-NeverBack}
use xray_vless_ws_go.Tunnel.Ready.{PollTurn, ticked, poll_ready, received}
use xray_vless_ws_go.Tunnel.Supervisor.{
  backoff_initial, Round, not_launched, launched, returned, run,
}
use xray_vless_ws_go.Tunnel.Supervisor.Backoff.{sleeps, doubled, run-doubled}
use xray_vless_ws_go.Tunnel.Supervisor.Processes.{alive, run-alive, run-is_left}

abbrev url_line : Bytes
url_line = codes "https://a.trycloudflare.com"

abbrev banner_line : Bytes
banner_line = codes "Your quick Tunnel has been created!"

abbrev armed : HostnameParser
armed = record { saw_banner = true }

url_found :
    feed armed url_line ≡ (record { saw_banner = false }, some (codes "a.trycloudflare.com"))
unfolding feed found_in find_url match_url host_of label_run is_label_byte is_banner contains
    has_prefix strip_ansi match_ansi bytes_eq
url_found = refl

label-IsLabel : All (λ c. is_label_byte c ≡ true) (codes "a")
unfolding is_label_byte
label-IsLabel = (refl, tt)

url_line-is_banner : is_banner (strip_ansi url_line) ≡ false
unfolding is_banner contains has_prefix strip_ansi match_ansi
url_line-is_banner = refl

banner_line-is_banner : is_banner (strip_ansi banner_line) ≡ true
unfolding is_banner contains has_prefix strip_ansi match_ansi
banner_line-is_banner = refl

quiet_line :
    (is_banner (strip_ansi (codes "x")) ≡ false) × (find_url (strip_ansi (codes "x")) ≡ none)
unfolding is_banner contains has_prefix strip_ansi match_ansi find_url match_url
quiet_line = (refl, refl)

url_line-find_url : find_url (strip_ansi url_line) ≡ some (codes "a.trycloudflare.com")
unfolding find_url match_url host_of label_run is_label_byte has_prefix strip_ansi match_ansi
    bytes_eq
url_line-find_url = refl

feed_all_after_banner_example :
    feed_all new_hostname_parser (banner_line ∷ ((codes "x" ∷ []) ++ url_line ∷ []))
    ≡ none ∷ (silent (codes "x" ∷ []) ++ some (codes "a.trycloudflare.com") ∷ [])
feed_all_after_banner_example =
    feed_all_after_banner new_hostname_parser banner_line (codes "x" ∷ []) url_line
      (codes "a.trycloudflare.com") banner_line-is_banner (quiet_line, tt) url_line-is_banner
      url_line-find_url

abbrev watcher : Watcher
watcher = record { has_on_ready = true; has_on_hostname = true; ws_host = codes "h"; named = true }

abbrev is_ready : ReadyState
is_ready = record { ready = true; ready_connections = pos 4; failed = false }

abbrev is_not_ready : ReadyState
is_not_ready = record { ready = false; ready_connections = pos 0; failed = false }

-- A tunnel that comes up, loses its connections and does not get them back for 16 seconds.
abbrev going_down : List Event
going_down =
    polled 0 is_ready ∷ polled 1000000000 is_not_ready ∷ polled 17000000000 is_not_ready ∷ []

going_down-stuck : (watch watcher start_state going_down).0 ≡ some stuck
unfolding watch start_state
going_down-stuck = refl

watch-NeverBack_example : NeverBack going_down
watch-NeverBack_example = watch-NeverBack watcher going_down going_down-stuck

abbrev rounds : List Round
rounds =
    not_launched true ∷ launched going_down false true ∷ launched (exited true ∷ []) false true ∷ []

second_sleep : get_elem? (sleeps (run watcher backoff_initial rounds).1) 1 ≡ some 4000000000
unfolding run watch start_state
second_sleep = refl

run-doubled_example : 4000000000 ≡ doubled backoff_initial 1
run-doubled_example = run-doubled watcher rounds 1 4000000000 second_sleep

run-alive_example : (a : Bool) × (alive false (run watcher backoff_initial rounds).1 ≡ some a)
run-alive_example = run-alive watcher backoff_initial rounds

closed_reason : (watch watcher start_state (closed ∷ [])).0 ≡ some poll_closed
unfolding watch start_state
closed_reason = refl

run-is_left_example :
    ((run watcher backoff_initial (launched (closed ∷ []) true true ∷ [])).0 ≡ returned)
    × (alive false (run watcher backoff_initial (launched (closed ∷ []) true true ∷ [])).1
        ≡ some true)
run-is_left_example =
    run-is_left watcher backoff_initial (closed ∷ []) true [] poll_closed closed_reason

abbrev turns : List PollTurn
turns = ticked (answered 200 (some (pos 4))) true ∷ ticked refused false ∷ []

turns-received : received (polled 0 is_ready ∷ closed ∷ []) ≡ poll_ready turns
unfolding poll_ready poll_ready_once
turns-received = refl

turns-poll_closed :
    (watch watcher start_state (polled 0 is_ready ∷ closed ∷ [])).0 ≡ some poll_closed
unfolding watch start_state
turns-poll_closed = refl
