-- ===== src/Tunnel/Watch/Laws.antt =====
-- What `watch` reports to its callbacks and why it returns.
use xray_vless_ws_go.Base.{
  ◌≡◌, ◌≢◌, refl, ap, sym, ◌∙◌, ◌⊎◌, inl, inr, Bool, true, false, List, [], ◌∷◌, ◌++◌, Option, none,
  some, Bytes, arith,
}
use xray_vless_ws_go.Tunnel.Watch.{
  Event, Reason, cancelled, Action, on_ready, on_hostname, log_poll_error, log_not_exiting,
  terminate, kill, await_exit, Watcher, WatchState, Next, go_on, return, step, watch,
}

-- The readiness that was reported last.
abbrev pub last_ready : List Action → Option Bool
last_ready [] = none
last_ready (on_ready state ∷ acts) = elim (last_ready acts) [
  | none ↦ some state.ready
  | some b ↦ some b
]
last_ready (on_hostname h ∷ acts) = last_ready acts
last_ready (log_poll_error ∷ acts) = last_ready acts
last_ready (log_not_exiting ∷ acts) = last_ready acts
last_ready (terminate ∷ acts) = last_ready acts
last_ready (kill ∷ acts) = last_ready acts
last_ready (await_exit ∷ acts) = last_ready acts

abbrev pub hostnames : List Action → List Bytes
hostnames [] = []
hostnames (on_ready state ∷ acts) = hostnames acts
hostnames (on_hostname h ∷ acts) = h ∷ hostnames acts
hostnames (log_poll_error ∷ acts) = hostnames acts
hostnames (log_not_exiting ∷ acts) = hostnames acts
hostnames (terminate ∷ acts) = hostnames acts
hostnames (kill ∷ acts) = hostnames acts
hostnames (await_exit ∷ acts) = hostnames acts

last_ready-append :
    (acts bs : List Action) {b : Bool} → last_ready bs ≡ some b → last_ready (acts ++ bs) ≡ some b
last_ready-append [] bs h = h
last_ready-append (on_ready state ∷ acts) bs h = ground (arith, last_ready-append acts bs h)
last_ready-append (on_hostname x ∷ acts) bs h = last_ready-append acts bs h
last_ready-append (log_poll_error ∷ acts) bs h = last_ready-append acts bs h
last_ready-append (log_not_exiting ∷ acts) bs h = last_ready-append acts bs h
last_ready-append (terminate ∷ acts) bs h = last_ready-append acts bs h
last_ready-append (kill ∷ acts) bs h = last_ready-append acts bs h
last_ready-append (await_exit ∷ acts) bs h = last_ready-append acts bs h

hostnames-append : (acts bs : List Action) → hostnames (acts ++ bs) ≡ hostnames acts ++ hostnames bs
hostnames-append [] bs = refl
hostnames-append (on_ready state ∷ acts) bs = hostnames-append acts bs
hostnames-append (on_hostname x ∷ acts) bs = ap (λ ys. x ∷ ys) (hostnames-append acts bs)
hostnames-append (log_poll_error ∷ acts) bs = hostnames-append acts bs
hostnames-append (log_not_exiting ∷ acts) bs = hostnames-append acts bs
hostnames-append (terminate ∷ acts) bs = hostnames-append acts bs
hostnames-append (kill ∷ acts) bs = hostnames-append acts bs
hostnames-append (await_exit ∷ acts) bs = hostnames-append acts bs

step-last_ready :
    (w : Watcher) (s : WatchState) (e : Event) (r : Reason)
    → w.has_on_ready ≡ true
    → (step w s e).0 ≡ return r
    → r ≢ cancelled
    → last_ready (step w s e).1 ≡ some false
unfolding step
step-last_ready w s e r h he hr = ground arith

Next-cases : (n : Next) → ((s : WatchState) × (n ≡ go_on s)) ⊎ ((r : Reason) × (n ≡ return r))
Next-cases (go_on s) = inl (s, refl)
Next-cases (return r) = inr (r, refl)

-- One turn of the loop either returns or goes on from a new state.
pub watch-cons :
    (w : Watcher) (s : WatchState) (e : Event) (es : List Event)
    → ((r : Reason) × ((step w s e).0 ≡ return r) × (watch w s (e ∷ es) ≡ (some r, (step w s e).1)))
      ⊎ ((s' : WatchState) × ((step w s e).0 ≡ go_on s')
          × ((watch w s (e ∷ es)).0 ≡ (watch w s' es).0)
          × ((watch w s (e ∷ es)).1 ≡ (step w s e).1 ++ (watch w s' es).1))
unfolding watch
watch-cons w s e es = elim (Next-cases (step w s e).0) [
  | inl (s', p) ↦ inr (s', p, rw (p, watch) refl, rw (p, watch) refl)
  | inr (r, p) ↦ inl (r, p, rw (p, watch) refl)
]

pub reason_unique :
    {p : Option Reason × List Action} {r r' : Reason} {acts : List Action}
    → p ≡ (some r', acts)
    → p.0 ≡ some r
    → r' ≡ r
reason_unique q h = cc

-- Where the supervisor has a readiness callback, `watch` returns for any other reason than a
-- cancelled context only after reporting, last of all, that the tunnel is not ready.
watch-last_ready :
    (w : Watcher) (s : WatchState) (es : List Event) (r : Reason)
    → w.has_on_ready ≡ true
    → (watch w s es).0 ≡ some r
    → r ≢ cancelled
    → last_ready (watch w s es).1 ≡ some false
unfolding watch
watch-last_ready w s [] r h he hr = cc
watch-last_ready w s (e ∷ es) r h he hr = elim (watch-cons w s e es) [
  | inl (r', p, q) ↦ rw q (step-last_ready w s e r h (p ∙ ap return (reason_unique q he)) hr)
  | inr (s', p, q, t) ↦ rw t (
      last_ready-append (step w s e).1 (watch w s' es).1
        (watch-last_ready w s' es r h (sym q ∙ he) hr))
]

step-hostnames :
    (w : Watcher) (s : WatchState) (e : Event) (s' : WatchState)
    → (step w s e).0 ≡ go_on s'
    → ((hostnames (step w s e).1 ≡ []) × (s'.named_hostname_fired ≡ s.named_hostname_fired))
      ⊎ ((hostnames (step w s e).1 ≡ w.ws_host ∷ [])
          × (w.named ≡ true)
          × (s.named_hostname_fired ≡ false)
          × (s'.named_hostname_fired ≡ true))
unfolding step
step-hostnames w s e s' h = ground arith

step-hostnames_return :
    (w : Watcher) (s : WatchState) (e : Event) (r : Reason)
    → (step w s e).0 ≡ return r
    → hostnames (step w s e).1 ≡ []
unfolding step
step-hostnames_return w s e r h = ground arith

watch-hostnames_fired :
    (w : Watcher) (s : WatchState) (es : List Event)
    → s.named_hostname_fired ≡ true
    → hostnames (watch w s es).1 ≡ []
unfolding watch
watch-hostnames_fired w s [] h = refl
watch-hostnames_fired w s (e ∷ es) h = elim (watch-cons w s e es) [
  | inl (r, p, q) ↦ rw q (step-hostnames_return w s e r p)
  | inr (s', p, q, t) ↦
      rw (t, hostnames-append (step w s e).1 (watch w s' es).1)
        (ground (arith, step-hostnames w s e s' p, watch-hostnames_fired w s' es))
]

-- `watch` reports no host name, or it reports WS_HOST once, and this for a named tunnel only.
watch-hostnames :
    (w : Watcher) (s : WatchState) (es : List Event)
    → (hostnames (watch w s es).1 ≡ [])
      ⊎ ((hostnames (watch w s es).1 ≡ w.ws_host ∷ []) × (w.named ≡ true))
unfolding watch
watch-hostnames w s [] = inl refl
watch-hostnames w s (e ∷ es) = elim (watch-cons w s e es) [
  | inl (r, p, q) ↦ inl (rw q (step-hostnames_return w s e r p))
  | inr (s', p, q, t) ↦
      rw (t, hostnames-append (step w s e).1 (watch w s' es).1)
        (ground (
          arith,
          step-hostnames w s e s' p,
          watch-hostnames_fired w s' es,
          watch-hostnames w s' es,
        ))
]
