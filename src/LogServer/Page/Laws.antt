-- ===== src/LogServer/Page/Laws.antt =====
-- The log view against the history of pushes.
use xray_vless_ws_go.Base.{
  ℕ, zero, suc, Bool, true, false, ◌+◌, ◌-◌, ◌≤◌, ◌<◌, ◌≡◌, refl, ap, ap₂, sym, ◌∙◌, subst, List,
  [], ◌∷◌, ◌++◌, append_assoc, append-nil, arith, some, Bool-cases, inl, inr, drop, ◌==◌,
  if◌then◌else◌, length, length-append, length-drop,
}
use xray_vless_ws_go.Text.Decimal.{ℤ, itoa, int_limit}
use xray_vless_ws_go.LogServer.Ring.{LogLine, Ring, capacity, new_ring, push}
use xray_vless_ws_go.LogServer.Ring.History.{
  Entry, push_all, number, take_last, length-number, number-append-number, capacity-pos, drop-nil,
}
use xray_vless_ws_go.LogServer.Server.{Request, Server, new_logs, plain}
use xray_vless_ws_go.LogServer.Server.Content.{handle_logs}
use xray_vless_ws_go.LogServer.Server.Polling.{handle_logs-take_last}
use xray_vless_ws_go.LogServer.Page.{
  Page, new_page, show_logs, fetch_logs, PageEvent, pushed, sent, answered, refused, lost, run_page,
}

-- What was pushed.
abbrev pub pushes : List PageEvent → List Entry
pushes [] = []
pushes (pushed e ∷ events) = e ∷ pushes events
pushes (sent ∷ events) = pushes events
pushes (answered i ∷ events) = pushes events
pushes (refused i ∷ events) = pushes events
pushes (lost i ∷ events) = pushes events

-- A fetch is sent only when none is on the way, and one ends only when it was sent.
abbrev pub InTurn : Bool → List PageEvent → Type 0
InTurn on_way [] = Unit {0}
InTurn on_way (pushed e ∷ events) = InTurn on_way events
InTurn on_way (sent ∷ events) = (on_way ≡ false) × InTurn true events
InTurn on_way (answered i ∷ events) = (on_way ≡ true) × (i ≡ 0) × InTurn false events
InTurn on_way (refused i ∷ events) = (on_way ≡ true) × (i ≡ 0) × InTurn false events
InTurn on_way (lost i ∷ events) = (on_way ≡ true) × (i ≡ 0) × InTurn false events

-- Each answered poll brings the newest `limit` of the lines that were pushed since the one before,
-- `waiting`, of which the first is line `n + 1` of the history.
abbrev pub delivered : ℕ → ℕ → List Entry → List PageEvent → List LogLine
delivered limit n waiting [] = []
delivered limit n waiting (pushed e ∷ events) = delivered limit n (waiting ++ e ∷ []) events
delivered limit n waiting (sent ∷ events) = delivered limit n waiting events
delivered limit n waiting (answered i ∷ events) =
    take_last limit (number (suc n) waiting) ++ delivered limit (n + length waiting) [] events
delivered limit n waiting (refused i ∷ events) = delivered limit n waiting events
delivered limit n waiting (lost i ∷ events) = delivered limit n waiting events

-- At most `limit` lines are pushed between two polls that are answered; `n` were, so far.
abbrev pub Paced : ℕ → ℕ → List PageEvent → Type 0
Paced limit n [] = Unit
Paced limit n (pushed e ∷ events) = Paced limit (suc n) events
Paced limit n (sent ∷ events) = Paced limit n events
Paced limit n (answered i ∷ events) = (n ≤ limit) × Paced limit 0 events
Paced limit n (refused i ∷ events) = Paced limit n events
Paced limit n (lost i ∷ events) = Paced limit n events

-- Where no line has come there are none.
abbrev Fresh : Page → Type 0
Fresh p = p.last_log_id ≡ 0 → p.container ≡ []

-- The page behind an answer with these lines.
abbrev Shows : Page → List LogLine → ℕ → Page → Type 0
Shows p ls last p' = (p'.last_log_id ≡ last) × (p'.container ≡ p.container ++ ls) × Fresh p'

cleared : (p : Page) → Fresh p → (if p.last_log_id == 0 then [] else p.container) ≡ p.container
cleared p fresh = elim (Bool-cases (p.last_log_id == 0)) [
  | inl e ↦ rw e (sym (fresh (ground (arith, e))))
  | inr e ↦ rw e refl
]

show_logs-Shows :
    (p : Page) (ls : List LogLine) (last : ℕ)
    → Fresh p
    → 0 < length ls
    → 0 < last
    → Shows p ls last (show_logs p (new_logs ls last))
unfolding show_logs
show_logs-Shows p [] last fresh some_lines h = absurd (omega arith)
show_logs-Shows p (l ∷ ls) last fresh some_lines h =
    (refl, ap (λ (c : List LogLine). c ++ l ∷ ls) (cleared p fresh), λ e. absurd (omega (arith, h)))

length-take_last :
    (k n : ℕ) (es : List Entry) → 0 < k → 0 < length es → 0 < length (take_last k (number n es))
length-take_last k n es room some_entries =
    omega (arith, length-number n es, length-drop (length (number n es) - k) (number n es))

answer-Shows :
    (p : Page) (limit : ℕ) (done waiting : List Entry)
    → 0 < limit
    → p.last_log_id ≡ length done
    → Fresh p
    → let lines = take_last limit (number (suc (length done)) waiting) in
      let last = length (done ++ waiting) in
      Shows p lines last (fetch_logs p (some (plain 200 (new_logs lines last))))
unfolding fetch_logs plain show_logs
answer-Shows p limit done [] room last fresh =
    rw (drop-nil (0 - limit))
      (omega (arith, length-append done [], last), sym (append-nil _), fresh)
answer-Shows p limit done (e ∷ waiting) room last fresh =
    show_logs-Shows p (take_last limit (number (suc (length done)) (e ∷ waiting)))
      (length (done ++ e ∷ waiting)) fresh
      (length-take_last limit (suc (length done)) (e ∷ waiting) room (omega arith))
      (omega (arith, length-append done (e ∷ waiting)))

true_ne : true ≡ false → ⊥
true_ne h = cc

push_all-snoc :
    (r : Ring) (es : List Entry) (e : Entry)
    → push (push_all r es) e.time e.source e.text ≡ push_all r (es ++ e ∷ [])
unfolding push_all
push_all-snoc r [] e = refl
push_all-snoc r (x ∷ es) e = push_all-snoc (push r x.time x.source x.text) es e

-- The fetches on the way of a page whose fetches take turns.
abbrev flights : Bool → Page → List ℕ
flights false p = []
flights true p = p.last_log_id ∷ []

module _ (r : Request) (max_logs : ℤ) where
  -- A page that has what was delivered for `done`, at a server that was pushed `done` and `waiting`.
  record Follows (s : Server) (p : Page) (done waiting : List Entry) : Type 0 where
    pub history : s.ring ≡ push_all (new_ring max_logs) (done ++ waiting)
    pub has : p.last_log_id ≡ length done
    pub fresh : Fresh p

  Follows-pushed :
      (s : Server) (p : Page) (done waiting : List Entry) (e : Entry)
      → Follows s p done waiting
      → Follows (record s { ring = push s.ring e.time e.source e.text }) p done (waiting ++ e ∷ [])
  Follows-pushed s p done waiting e f = record {
    history =
        ap (λ (x : Ring). push x e.time e.source e.text) f.history
        ∙ push_all-snoc (new_ring max_logs) (done ++ waiting) e
        ∙ ap (push_all (new_ring max_logs)) (append_assoc done waiting (e ∷ []));
    has = f.has;
    fresh = f.fresh;
  }

  run_page-from :
      (s : Server) (p : Page) (done waiting : List Entry) (on_way : Bool) (events : List PageEvent)
      → Follows s p done waiting
      → InTurn on_way events
      → length done + length waiting + length (pushes events) < int_limit
      → (run_page s r p (flights on_way p) events).container
        ≡ p.container ++ delivered (capacity max_logs) (length done) waiting events
  unfolding run_page
  run_page-from s p done waiting on_way [] f turn small = sym (append-nil _)
  run_page-from s p done waiting true (pushed e ∷ events) f turn small =
      run_page-from (record s { ring = push s.ring e.time e.source e.text }) p done
        (waiting ++ e ∷ []) true events (Follows-pushed s p done waiting e f) turn
        (omega (arith, small, length-append waiting (e ∷ [])))
  run_page-from s p done waiting false (pushed e ∷ events) f turn small =
      run_page-from (record s { ring = push s.ring e.time e.source e.text }) p done
        (waiting ++ e ∷ []) false events (Follows-pushed s p done waiting e f) turn
        (omega (arith, small, length-append waiting (e ∷ [])))
  run_page-from s p done waiting true (sent ∷ events) f turn small = absurd (true_ne turn.0)
  run_page-from s p done waiting false (sent ∷ events) f turn small =
      run_page-from s p done waiting true events f turn.1 small
  run_page-from s p done waiting false (answered i ∷ events) f turn small =
      absurd (true_ne (sym turn.0))
  run_page-from s p done waiting false (refused i ∷ events) f turn small =
      absurd (true_ne (sym turn.0))
  run_page-from s p done waiting false (lost i ∷ events) f turn small =
      absurd (true_ne (sym turn.0))
  run_page-from s p done waiting true (answered (suc i) ∷ events) f turn small =
      absurd (omega (arith, turn.1))
  run_page-from s p done waiting true (refused (suc i) ∷ events) f turn small =
      absurd (omega (arith, turn.1))
  run_page-from s p done waiting true (lost (suc i) ∷ events) f turn small =
      absurd (omega (arith, turn.1))
  run_page-from s p done waiting true (answered zero ∷ events) f turn small =
      run_page-from s p' (done ++ waiting) [] false events
        (record {
          history = f.history ∙ ap (push_all (new_ring max_logs)) (sym (append-nil _));
          has = shows.0;
          fresh = shows.2;
        })
        turn.2 (omega (arith, small, length-append done waiting))
      ∙ ap₂ (λ (c : List LogLine) (n : ℕ). c ++ delivered (capacity max_logs) n [] events) shows.1
          (length-append done waiting)
      ∙ append_assoc p.container _ _
    where
      p' : Page
      p' = fetch_logs p (some (handle_logs s (record r { last_id = itoa p.last_log_id })))

      shows :
          Shows p
            (take_last (capacity max_logs) (number (suc (length done)) waiting))
            (length (done ++ waiting))
            p'
      shows =
          subst
            (λ x.
              Shows p (take_last (capacity max_logs) (number (suc (length done)) waiting))
                (length (done ++ waiting)) (fetch_logs p (some x)))
            (sym (
              handle_logs-take_last s (record r { last_id = itoa p.last_log_id }) max_logs done
                waiting f.history (ap itoa f.has) (omega (arith, small))))
            (answer-Shows p (capacity max_logs) done waiting (capacity-pos max_logs) f.has f.fresh)
  run_page-from s p done waiting true (refused zero ∷ events) f turn small =
      unfold fetch_logs plain in run_page-from s p done waiting false events f turn.2 small
  run_page-from s p done waiting true (lost zero ∷ events) f turn small =
      unfold fetch_logs in run_page-from s p done waiting false events f turn.2 small

-- The ids that a number of JavaScript holds exactly.
abbrev pub safe_limit : ℕ
safe_limit = 9007199254740992

-- Below 2^53 lines, on a page that is not cleared, and where a fetch is sent only when none is on the
-- way: whatever else the order of
-- pushes and polls is, polls that fail included, each poll that is answered adds to the page the newest
-- of the lines pushed since the last one that was, as many as the ring holds, in their order, and
-- nothing else.
pub run_page-delivered :
    (s : Server) (r : Request) (max_logs : ℤ) (events : List PageEvent)
    → s.ring ≡ new_ring max_logs
    → length (pushes events) < safe_limit
    → InTurn false events
    → (run_page s r new_page [] events).container ≡ delivered (capacity max_logs) 0 [] events
unfolding push_all
run_page-delivered s r max_logs events start small turn =
    run_page-from r max_logs s new_page [] [] false events
      (record { history = start; has = refl; fresh = λ e. refl }) turn (omega (arith, small))

take_last-all {ℓ} : {A : Type ℓ} (k : ℕ) (xs : List A) → length xs ≤ k → take_last k xs ≡ xs
take_last-all k xs h = ap (λ (i : ℕ). drop i xs) {y = 0} (omega (arith, h))

delivered-Paced :
    (limit n : ℕ) (waiting : List Entry) (events : List PageEvent)
    → Paced limit (length waiting) (events ++ sent ∷ answered 0 ∷ [])
    → delivered limit n waiting (events ++ sent ∷ answered 0 ∷ [])
      ≡ number (suc n) (waiting ++ pushes events)
delivered-Paced limit n waiting [] paced =
    append-nil _
    ∙ take_last-all limit (number (suc n) waiting)
        (omega (arith, length-number (suc n) waiting, paced.0))
    ∙ ap (number (suc n)) (sym (append-nil _))
delivered-Paced limit n waiting (pushed e ∷ events) paced =
    delivered-Paced limit n (waiting ++ e ∷ []) events (
      subst (λ (i : ℕ). Paced limit i (events ++ sent ∷ answered 0 ∷ [])) {x = suc (length waiting)}
        (omega (arith, length-append waiting (e ∷ []))) paced)
    ∙ ap (number (suc n)) (append_assoc waiting (e ∷ []) (pushes events))
delivered-Paced limit n waiting (sent ∷ events) paced = delivered-Paced limit n waiting events paced
delivered-Paced limit n waiting (answered i ∷ events) paced =
    ap₂ (◌++◌)
      (take_last-all limit (number (suc n) waiting)
        (omega (arith, length-number (suc n) waiting, paced.0)))
      (delivered-Paced limit (n + length waiting) [] events paced.1)
    ∙ ap (λ (i : ℕ). number (suc n) waiting ++ number i (pushes events))
        {x = suc (n + length waiting)} (omega arith)
    ∙ sym (number-append-number (suc n) waiting (pushes events))
delivered-Paced limit n waiting (refused i ∷ events) paced =
    delivered-Paced limit n waiting events paced
delivered-Paced limit n waiting (lost i ∷ events) paced =
    delivered-Paced limit n waiting events paced

-- Below 2^53 lines, on a page that is not cleared, where a fetch is sent only when none is on the way, and no more lines are pushed
-- between two answered polls than the ring holds: whatever polls fail, behind a last answered poll the page shows every line that was pushed,
-- exactly once and in order.
pub run_page-pushes :
    (s : Server) (r : Request) (max_logs : ℤ) (events : List PageEvent)
    → s.ring ≡ new_ring max_logs
    → length (pushes events) < safe_limit
    → InTurn false (events ++ sent ∷ answered 0 ∷ [])
    → Paced (capacity max_logs) 0 (events ++ sent ∷ answered 0 ∷ [])
    → (run_page s r new_page [] (events ++ sent ∷ answered 0 ∷ [])).container
      ≡ number 1 (pushes events)
run_page-pushes s r max_logs events start small turn paced =
    run_page-delivered s r max_logs (events ++ sent ∷ answered 0 ∷ []) start
      (subst (λ (es : List Entry). length es < safe_limit) (sym (pushes_answered events)) small)
      turn
    ∙ delivered-Paced (capacity max_logs) 0 [] events paced
  where
    pushes_answered : (es : List PageEvent) → pushes (es ++ sent ∷ answered 0 ∷ []) ≡ pushes es
    pushes_answered [] = refl
    pushes_answered (pushed e ∷ es) = ap (◌∷◌ e) (pushes_answered es)
    pushes_answered (sent ∷ es) = pushes_answered es
    pushes_answered (answered i ∷ es) = pushes_answered es
    pushes_answered (refused i ∷ es) = pushes_answered es
    pushes_answered (lost i ∷ es) = pushes_answered es
