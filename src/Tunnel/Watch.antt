-- ===== src/Tunnel/Watch.antt =====
-- internal/tunnel/supervisor.go, `watch`, with ReadyState and the decision of `pollReadyOnce` of
-- ready.go. What the `select` receives is a list of events, in the order in which it does; each
-- event carries the clock reading that its branch may take, in nanoseconds.
pub mod Laws
pub mod Stuck
use xray_vless_ws_go.Base.{
  ℕ, ◌+◌, ◌-◌, ◌*◌, Bool, true, false, not, ◌&&◌, List, [], ◌∷◌, ◌++◌, Option, none, some, Bytes,
  ltb, ◌==◌, if◌then◌else◌,
}
use xray_vless_ws_go.Text.Decimal.{ℤ, pos}

pub record ReadyState : Type 0 where
  pub ready : Bool
  pub ready_connections : ℤ
  pub failed : Bool

-- The answer to a request of /ready: the request could not be built, nobody answered, or a status
-- with the decoded body, `none` where it does not decode.
pub data PollReply : Type 0 where
  not_built refused : PollReply
  answered : ℕ → Option ℤ → PollReply

unfoldable pub poll_ready_once : PollReply → ReadyState
poll_ready_once not_built = record { ready = false; ready_connections = pos 0; failed = true }
poll_ready_once refused = record { ready = false; ready_connections = pos 0; failed = false }
poll_ready_once (answered code none) = record {
  ready = false;
  ready_connections = pos 0;
  failed = true;
}
poll_ready_once (answered code (some connections)) = record {
  ready = code == 200;
  ready_connections = connections;
  failed = false;
}

abbrev pub not_ready_grace : ℕ
not_ready_grace = 15 * 1000000000

-- One case of the `select`. `done` says whether the process exits within the grace period.
pub data Event : Type 0 where
  done : Bool → Event
  exited : Bool → Event
  closed : Event
  polled : ℕ → ReadyState → Event

-- Why `watch` returns; `crashed` says whether the process returned an error.
pub data Reason : Type 0 where
  cancelled : Reason
  crashed : Bool → Reason
  poll_closed : Reason
  stuck : Reason

-- What `watch` does to the outside: calls of the supervisor's callbacks, signals, and the receive
-- of the process's exit.
pub data Action : Type 0 where
  on_ready : ReadyState → Action
  on_hostname : Bytes → Action
  log_poll_error log_not_exiting : Action
  terminate kill await_exit : Action

-- The supervisor and the handle, as far as `watch` reads them: which callbacks are set, WS_HOST, and
-- whether the tunnel is a named one.
pub record Watcher : Type 0 where
  pub has_on_ready : Bool
  pub has_on_hostname : Bool
  pub ws_host : Bytes
  pub named : Bool

pub record WatchState : Type 0 where
  pub not_ready_since : Option ℕ
  pub named_hostname_fired : Bool

unfoldable pub start_state : WatchState
start_state = record { not_ready_since = none; named_hostname_fired = false }

abbrev pub not_ready : ReadyState
not_ready = record { ready = false; ready_connections = pos 0; failed = false }

unfoldable pub report : Watcher → ReadyState → List Action
report w state = if w.has_on_ready then on_ready state ∷ [] else []

-- The graceful shutdown: the process is told to exit, and killed where it does not in time; either
-- way its exit is received.
unfoldable pub shut_down : Bool → List Action
shut_down exits_in_time =
    if exits_in_time
    then terminate ∷ await_exit ∷ []
    else terminate ∷ log_not_exiting ∷ kill ∷ await_exit ∷ []

-- What a branch of the `select` leaves: a new state, or the reason to return; and what it did.
pub data Next : Type 0 where
  go_on : WatchState → Next
  return : Reason → Next

unfoldable pub on_poll_ready : Watcher → WatchState → ReadyState → Next × List Action
unfolding report
on_poll_ready w s state =
    let fires = w.named && (not s.named_hostname_fired && w.has_on_hostname) in
    (
      go_on (record {
        not_ready_since = none;
        named_hostname_fired = if fires then true else s.named_hostname_fired;
      }),
      report w state ++ (if fires then on_hostname w.ws_host ∷ [] else []),
    )

unfoldable pub on_poll_not_ready : Watcher → WatchState → ℕ → ReadyState → Next × List Action
unfolding report
on_poll_not_ready w s now state = elim s.not_ready_since [
  | none ↦ (go_on (record s { not_ready_since = some now }), report w state)
  | some since ↦
      (if ltb (since + not_ready_grace) now then return stuck else go_on s, report w state)
]

unfoldable pub step : Watcher → WatchState → Event → Next × List Action
unfolding shut_down on_poll_ready on_poll_not_ready
step w s (done exits_in_time) = (return cancelled, shut_down exits_in_time)
step w s (exited failed) = (return (crashed failed), await_exit ∷ report w not_ready)
step w s closed = (return poll_closed, report w not_ready)
step w s (polled now state) =
    if state.failed
    then (go_on s, log_poll_error ∷ [])
    else if state.ready
    then on_poll_ready w s state
    else on_poll_not_ready w s now state

-- `none` where the events end before `watch` returns.
unfoldable pub watch : Watcher → WatchState → List Event → Option Reason × List Action
unfolding step
watch w s [] = (none, [])
watch w s (e ∷ es) =
    let (next, actions) = step w s e in
    elim next [
      | return reason ↦ (some reason, actions)
      | go_on s' ↦ let rest = watch w s' es in (rest.0, actions ++ rest.1)
    ]
