-- ===== src/Tunnel/Supervisor/Processes.antt =====
-- That `Run` has at most one process of cloudflared, and what becomes of it when `Run` returns.
use xray_vless_ws_go.Base.{
  ℕ, ◌≡◌, refl, sym, ap, ◌∙◌, inl, inr, Bool, true, false, List, [], ◌∷◌, ◌++◌, map, Option, none,
  some, arith,
}
use xray_vless_ws_go.Tunnel.Watch.{
  Action, await_exit, kill, terminate, on_ready, on_hostname, log_poll_error, log_not_exiting,
  Event, Reason, cancelled, crashed, poll_closed, stuck, Watcher, WatchState, start_state, go_on,
  return, step, watch,
}
use xray_vless_ws_go.Tunnel.Watch.Laws.{watch-cons, reason_unique}
use xray_vless_ws_go.Tunnel.Supervisor
use xray_vless_ws_go.Tunnel.Supervisor.{
  next_backoff, Round, done_before, not_launched, launched, Step, start, watching, log_not_launched,
  log_restart, sleep, Stand, returned, after_watch, run,
}

-- Whether a process may still be alive after an action: one that was killed, or whose exit was
-- received, is not.
abbrev pub after_action : Bool → Action → Bool
after_action b (on_ready state) = b
after_action b (on_hostname host) = b
after_action b log_poll_error = b
after_action b log_not_exiting = b
after_action b terminate = b
after_action b kill = false
after_action b await_exit = false

-- Whether a process may still be alive after the steps; `none` where one is started while another
-- may be.
abbrev pub alive : Bool → List Step → Option Bool
alive b [] = some b
alive true (start ∷ steps) = none
alive false (start ∷ steps) = alive true steps
alive b (watching action ∷ steps) = alive (after_action b action) steps
alive b (Supervisor.terminate ∷ steps) = alive b steps
alive b (Supervisor.kill ∷ steps) = alive false steps
alive b (log_not_launched ∷ steps) = alive b steps
alive b (log_restart reason ∷ steps) = alive b steps
alive b (sleep d ∷ steps) = alive b steps

abbrev after_actions : Bool → List Action → Bool
after_actions b [] = b
after_actions b (action ∷ acts) = after_actions (after_action b action) acts

alive-watching :
    (b : Bool) (acts : List Action) (steps : List Step)
    → alive b (map watching acts ++ steps) ≡ alive (after_actions b acts) steps
alive-watching true [] steps = refl
alive-watching false [] steps = refl
alive-watching true (action ∷ acts) steps = alive-watching (after_action true action) acts steps
alive-watching false (action ∷ acts) steps = alive-watching (after_action false action) acts steps

alive-after_watch :
    (b : Bool) (d : ℕ) (is_done slept : Bool) (reason : Option Reason) (rest : Stand × List Step)
    → (a : Bool) × (alive false rest.1 ≡ some a)
    → (a : Bool) × (alive b (after_watch d is_done slept reason rest).1 ≡ some a)
unfolding after_watch
alive-after_watch true d is_done slept none rest h = (true, refl)
alive-after_watch false d is_done slept none rest h = (false, refl)
alive-after_watch true d true slept (some reason) rest h = (true, refl)
alive-after_watch false d true slept (some reason) rest h = (false, refl)
alive-after_watch true d false true (some reason) rest h = h
alive-after_watch false d false true (some reason) rest h = h
alive-after_watch true d false false (some reason) rest h = (false, refl)
alive-after_watch false d false false (some reason) rest h = (false, refl)

-- `Run` starts cloudflared only when every process that it started before was killed or has exited.
pub run-alive :
    (w : Watcher) (d : ℕ) (rounds : List Round)
    → (a : Bool) × (alive false (run w d rounds).1 ≡ some a)
unfolding run
run-alive w d [] = (false, refl)
run-alive w d (done_before ∷ rounds) = (false, refl)
run-alive w d (not_launched true ∷ rounds) = run-alive w (next_backoff d) rounds
run-alive w d (not_launched false ∷ rounds) = (false, refl)
run-alive w d (launched events is_done slept ∷ rounds) =
    rw
      (alive-watching true (watch w start_state events).1
        (after_watch d is_done slept (watch w start_state events).0
          (run w (next_backoff d) rounds)).1)
      (alive-after_watch (after_actions true (watch w start_state events).1) d is_done slept
        (watch w start_state events).0 (run w (next_backoff d) rounds)
        (run-alive w (next_backoff d) rounds))

-- Whether `watch` leaves the process to `Run`.
abbrev pub is_left : Reason → Bool
is_left cancelled = false
is_left (crashed failed) = false
is_left poll_closed = true
is_left stuck = true

after_actions-append :
    (b : Bool) (xs ys : List Action)
    → after_actions b (xs ++ ys) ≡ after_actions (after_actions b xs) ys
after_actions-append b [] ys = refl
after_actions-append b (x ∷ xs) ys = after_actions-append (after_action b x) xs ys

step-is_left :
    (w : Watcher) (s : WatchState) (e : Event) (r : Reason)
    → (step w s e).0 ≡ return r
    → after_actions true (step w s e).1 ≡ is_left r
unfolding step
step-is_left w s e r h = ground arith

step-after_actions :
    (w : Watcher) (s s' : WatchState) (e : Event)
    → (step w s e).0 ≡ go_on s'
    → after_actions true (step w s e).1 ≡ true
unfolding step
step-after_actions w s s' e h = ground arith

watch-is_left :
    (w : Watcher) (s : WatchState) (es : List Event) (r : Reason)
    → (watch w s es).0 ≡ some r
    → after_actions true (watch w s es).1 ≡ is_left r
unfolding watch
watch-is_left w s [] r h = cc
watch-is_left w s (e ∷ es) r h = elim (watch-cons w s e es) [
  | inl (r', p, q) ↦ rw q (step-is_left w s e r (p ∙ ap return (reason_unique q h)))
  | inr (s', p, q, acts) ↦
      rw
        (
          acts,
          after_actions-append true (step w s e).1 (watch w s' es).1,
          step-after_actions w s s' e p,
        )
        (watch-is_left w s' es r (sym q ∙ h))
]

-- Where the context is done when `watch` returns, `Run` returns. The process has then exited if
-- `watch` returned because of the context or of the exit; where it returned because the channel of
-- polls is closed or the tunnel is stuck, the process was not killed and its exit not received.
pub run-is_left :
    (w : Watcher) (d : ℕ) (events : List Event) (slept : Bool) (rounds : List Round) (r : Reason)
    → (watch w start_state events).0 ≡ some r
    → (run w d (launched events true slept ∷ rounds)).0 ≡ returned
      × (alive false (run w d (launched events true slept ∷ rounds)).1 ≡ some (is_left r))
unfolding run after_watch
run-is_left w d events slept rounds r h =
    rw
      (
        h,
        alive-watching true (watch w start_state events).1 (Supervisor.terminate ∷ []),
        watch-is_left w start_state events r h,
      )
      (refl, last (is_left r))
  where
    last : (b : Bool) → alive b (Supervisor.terminate ∷ []) ≡ some b
    last true = refl
    last false = refl
