-- ===== src/Tunnel/Watch/Stuck.antt =====
-- When `watch` gives a tunnel up as stuck.
use xray_vless_ws_go.Base.{
  ℕ, ◌+◌, ◌<◌, ◌≡◌, refl, ap, ◌∙◌, sym, subst, ◌⊎◌, inl, inr, true, false, List, [], ◌∷◌, ◌++◌,
  Option, none, some, arith, All, Bool-cases, Option-cases,
}
use xray_vless_ws_go.Tunnel.Watch.{
  ReadyState, Event, polled, done, exited, closed, stuck, Watcher, WatchState, start_state,
  not_ready_grace, go_on, return, step, watch,
}
use xray_vless_ws_go.Tunnel.Watch.Laws.{watch-cons, reason_unique}

-- A poll that failed, or that did not find the tunnel ready.
abbrev pub IsQuiet : Event → Type 0
IsQuiet (polled now state) = (state.failed ≡ true) ⊎ (state.ready ≡ false)
IsQuiet (done b) = ⊥
IsQuiet (exited b) = ⊥
IsQuiet closed = ⊥

abbrev pub IsNotReady : ReadyState → Type 0
IsNotReady state = (state.failed ≡ false) × (state.ready ≡ false)

-- Only quiet polls, up to one at a time `t` after the grace period since `since`.
abbrev pub Expires : ℕ → List Event → Type 0
Expires since es =
    (middle : List Event) × (t : ℕ) × (state : ReadyState) × (after : List Event) × (es
      ≡ middle ++ (polled t state ∷ after))
    × All IsQuiet middle
    × IsNotReady state
    × (since + not_ready_grace < t)

-- A poll that did not find the tunnel ready, and from then on only quiet polls until the grace
-- period is over.
abbrev pub NeverBack : List Event → Type 0
NeverBack es =
    (before : List Event) × (since : ℕ) × (state : ReadyState) × (rest : List Event) × (es
      ≡ before ++ (polled since state ∷ rest))
    × IsNotReady state
    × Expires since rest

Expires-cons :
    (since : ℕ) (e : Event) (es : List Event)
    → IsQuiet e
    → Expires since es
    → Expires since (e ∷ es)
Expires-cons since e es q (middle, t, state, after, eq, qs, n, lt) =
    (e ∷ middle, t, state, after, rw eq refl, (q, qs), n, lt)

NeverBack-cons : (e : Event) (es : List Event) → NeverBack es → NeverBack (e ∷ es)
NeverBack-cons e es (before, since, state, rest, eq, n, x) =
    (e ∷ before, since, state, rest, rw eq refl, n, x)

-- What a turn of the loop that goes on has seen.
step-go_on :
    (w : Watcher) (s s' : WatchState) (e : Event)
    → (step w s e).0 ≡ go_on s'
    → (s'.not_ready_since ≡ none)
      ⊎ ((s'.not_ready_since ≡ s.not_ready_since) × IsQuiet e)
      ⊎ ((t : ℕ) × (state : ReadyState) × (e ≡ polled t state)
          × IsNotReady state
          × (s'.not_ready_since ≡ some t))
unfolding step
step-go_on w s s' (done b) h = cc
step-go_on w s s' (exited b) h = cc
step-go_on w s s' closed h = cc
step-go_on w s s' (polled t state) h = elim (Bool-cases state.failed) [
  | inl f ↦ inr (inl (ground arith, inl f))
  | inr f ↦ elim (Bool-cases state.ready) [
    | inl r ↦ inl (ground arith)
    | inr r ↦ elim (Option-cases s.not_ready_since) [
      | inl n ↦ inr (inr (t, state, refl, (f, r), ground arith))
      | inr (t₀, n) ↦ inr (inl (ground arith, inr r))
    ]
  ]
]

step-stuck :
    (w : Watcher) (s : WatchState) (e : Event)
    → (step w s e).0 ≡ return stuck
    → (since : ℕ) × (t : ℕ) × (state : ReadyState) × (s.not_ready_since ≡ some since)
      × (e ≡ polled t state)
      × IsNotReady state
      × (since + not_ready_grace < t)
unfolding step
step-stuck w s (done b) h = cc
step-stuck w s (exited b) h = cc
step-stuck w s closed h = cc
step-stuck w s (polled t state) h = elim (Option-cases s.not_ready_since) [
  | inl n ↦ absurd (ground arith)
  | inr (t₀, n) ↦ (t₀, t, state, n, refl, ground arith, ground arith)
]

some_unique : {o : Option ℕ} {a b : ℕ} → o ≡ some a → o ≡ some b → a ≡ b
some_unique p q = cc

stuck-invariant :
    (w : Watcher) (s : WatchState) (es : List Event)
    → (watch w s es).0 ≡ some stuck
    → ((since : ℕ) × (s.not_ready_since ≡ some since) × Expires since es) ⊎ NeverBack es
unfolding watch
stuck-invariant w s [] h = cc
stuck-invariant w s (e ∷ es) h = elim (watch-cons w s e es) [
  | inl (r, p, q) ↦
      let (since, t, state, n, eq, r', lt) = step-stuck w s e (p ∙ ap return (reason_unique q h)) in
      inl (since, n, ([], t, state, es, rw eq refl, tt, r', lt))
  | inr (s', p, q, acts) ↦ elim (stuck-invariant w s' es (sym q ∙ h)) [
    | inr back ↦ inr (NeverBack-cons e es back)
    | inl (since, n, x) ↦ elim (step-go_on w s s' e p) [
      | inl none_now ↦ cc
      | inr (inl (same, quiet)) ↦ inl (since, sym same ∙ n, Expires-cons since e es quiet x)
      | inr (inr (t, state, eq, r', now)) ↦ inr (
        [],
        t,
        state,
        es,
        rw eq refl,
        r',
        subst (λ since. Expires since es) (some_unique n now) x,
      )
    ]
  ]
]

-- `watch` gives a tunnel up as stuck only after a poll that did not find it ready, which is followed
-- by nothing but polls that failed or did not find it ready either, one of them more than 15 seconds
-- later.
pub watch-NeverBack :
    (w : Watcher) (es : List Event) → (watch w start_state es).0 ≡ some stuck → NeverBack es
unfolding start_state
watch-NeverBack w es h = elim (stuck-invariant w start_state es h) [
  | inl (since, n, x) ↦ cc
  | inr back ↦ back
]
