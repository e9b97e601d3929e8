-- ===== src/Tunnel/Ready.antt =====
-- internal/tunnel/ready.go, `PollReady`: what its goroutine sends, by the turns of its loop.
use xray_vless_ws_go.Base.{
  ◌≡◌, refl, ap, Bool, true, false, List, [], ◌∷◌, if◌then◌else◌, inl, inr, ◌⊎◌, ◌∙◌, sym, some,
  arith,
}
use xray_vless_ws_go.Tunnel.Watch.{
  ReadyState, PollReply, poll_ready_once, Event, polled, closed, done, exited, poll_closed, Watcher,
  WatchState, return, step, on_poll_ready, on_poll_not_ready, watch,
}
use xray_vless_ws_go.Tunnel.Watch.Laws.{watch-cons, reason_unique}

-- The context is done, or the ticker fires and the request is answered; the state is taken, or the
-- context is done first.
pub data PollTurn : Type 0 where
  cancelled : PollTurn
  ticked : PollReply → Bool → PollTurn

-- The states that are sent, and whether the channel was closed behind them.
unfoldable pub poll_ready : List PollTurn → List ReadyState × Bool
unfolding poll_ready_once
poll_ready [] = ([], false)
poll_ready (cancelled ∷ turns) = ([], true)
poll_ready (ticked reply taken ∷ turns) =
    let rest = poll_ready turns in
    if taken then (poll_ready_once reply ∷ rest.0, rest.1) else ([], true)

-- What the select of `watch` takes from the channel.
abbrev pub received : List Event → List ReadyState × Bool
received [] = ([], false)
received (polled now state ∷ es) = let rest = received es in (state ∷ rest.0, rest.1)
received (closed ∷ es) = ([], true)
received (done in_time ∷ es) = received es
received (exited failed ∷ es) = received es

abbrev pub IsCancelled : List PollTurn → Type 0
IsCancelled [] = ⊥
IsCancelled (cancelled ∷ turns) = Unit
IsCancelled (ticked reply taken ∷ turns) = (taken ≡ false) ⊎ IsCancelled turns

poll_ready-closed : (turns : List PollTurn) → (poll_ready turns).1 ≡ true → IsCancelled turns
unfolding poll_ready
poll_ready-closed [] h = cc
poll_ready-closed (cancelled ∷ turns) h = tt
poll_ready-closed (ticked reply true ∷ turns) h = inr (poll_ready-closed turns h)
poll_ready-closed (ticked reply false ∷ turns) h = inl refl

step-poll_closed :
    (w : Watcher) (s : WatchState) (e : Event) → (step w s e).0 ≡ return poll_closed → e ≡ closed
unfolding step on_poll_ready on_poll_not_ready
step-poll_closed w s (done in_time) h = cc
step-poll_closed w s (exited failed) h = cc
step-poll_closed w s closed h = refl
step-poll_closed w s (polled now state) h = ground arith

received-cons :
    (e : Event) (es : List Event) → (received es).1 ≡ true → (received (e ∷ es)).1 ≡ true
received-cons (polled now state) es h = h
received-cons closed es h = refl
received-cons (done in_time) es h = h
received-cons (exited failed) es h = h

watch-received :
    (w : Watcher) (s : WatchState) (es : List Event)
    → (watch w s es).0 ≡ some poll_closed
    → (received es).1 ≡ true
unfolding watch
watch-received w s [] h = cc
watch-received w s (e ∷ es) h = elim (watch-cons w s e es) [
  | inl (r, p, q) ↦ rw (step-poll_closed w s e (p ∙ ap return (reason_unique q h))) refl
  | inr (s', p, q, t) ↦ received-cons e es (watch-received w s' es (sym q ∙ h))
]

-- Where what `watch` takes from the poll channel is what `PollReady` put into it, `watch` returns for a
-- closed channel only if the context was done in one of the turns of `PollReady`.
watch-IsCancelled :
    (w : Watcher) (s : WatchState) (es : List Event) (turns : List PollTurn)
    → received es ≡ poll_ready turns
    → (watch w s es).0 ≡ some poll_closed
    → IsCancelled turns
watch-IsCancelled w s es turns same h =
    poll_ready-closed turns (ap (λ x. x.1) (sym same) ∙ watch-received w s es h)
