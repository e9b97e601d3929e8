-- ===== src/Tunnel/Supervisor.antt =====
-- internal/tunnel/supervisor.go, `Run` with `sleepOrDone` and `nextBackoff`. One turn of the loop is
-- a round: what the context, `Launch`, the events of `watch` and the sleep do in it.
pub mod Backoff
pub mod Processes
use xray_vless_ws_go.Base.{
  ℕ, ◌+◌, ◌*◌, Bool, true, false, List, [], ◌∷◌, ◌++◌, map, Option, none, some, ltb, if◌then◌else◌,
}
use xray_vless_ws_go.Tunnel.Watch.{Action, Event, Reason, Watcher, start_state, watch}

abbrev pub backoff_initial : ℕ
backoff_initial = 2 * 1000000000

abbrev pub backoff_max : ℕ
backoff_max = 60 * 1000000000

unfoldable pub next_backoff : ℕ → ℕ
next_backoff cur = let next = cur * 2 in if ltb backoff_max next then backoff_max else next

-- `slept` says whether the sleep ends before the context is done.
pub data Round : Type 0 where
  done_before : Round
  not_launched : Bool → Round
  launched : List Event → Bool → Bool → Round

-- What `Run` does: a process is started, the actions of `watch`, the signals of its own, a line of
-- the log, and a sleep.
pub data Step : Type 0 where
  start : Step
  watching : Action → Step
  terminate kill : Step
  log_not_launched : Step
  log_restart : Reason → Step
  sleep : ℕ → Step

-- How `Run` stands when the rounds end: it has returned, it is in `watch`, or it is to go on with a
-- next round.
pub data Stand : Type 0 where
  returned in_watch to_go_on : Stand

-- A `kill` is the call of `Process.Kill`, whose error the source does not read; the exit itself is not
-- waited for. The rest of a round after `watch`, for the events that make it return or not. `rest` is what the
-- next rounds do.
unfoldable pub after_watch : ℕ → Bool → Bool → Option Reason → Stand × List Step → Stand × List Step
after_watch backoff is_done slept none rest = (in_watch, [])
after_watch backoff is_done slept (some reason) rest =
    if is_done
    then (returned, terminate ∷ [])
    else if slept
    then (rest.0, log_restart reason ∷ kill ∷ sleep backoff ∷ rest.1)
    else (returned, log_restart reason ∷ kill ∷ sleep backoff ∷ [])

unfoldable pub run : Watcher → ℕ → List Round → Stand × List Step
unfolding next_backoff after_watch
run w backoff [] = (to_go_on, [])
run w backoff (done_before ∷ rounds) = (returned, [])
run w backoff (not_launched slept ∷ rounds) =
    let rest = run w (next_backoff backoff) rounds in
    if slept
    then (rest.0, log_not_launched ∷ sleep backoff ∷ rest.1)
    else (returned, log_not_launched ∷ sleep backoff ∷ [])
run w backoff (launched events is_done slept ∷ rounds) =
    let rest = run w (next_backoff backoff) rounds in
    let (reason, actions) = watch w start_state events in
    let (stand, steps) = after_watch backoff is_done slept reason rest in
    (stand, start ∷ (map watching actions ++ steps))
