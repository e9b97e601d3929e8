-- ===== src/Tunnel/Supervisor/Backoff.antt =====
-- How long `Run` sleeps before it starts cloudflared again.
use xray_vless_ws_go.Base.{
  ℕ, zero, suc, ◌*◌, ◌^◌, ◌≤◌, ◌≡◌, refl, ◌∙◌, Bool, true, false, List, [], ◌∷◌, ◌++◌, map, Option,
  none, some, arith, ltb, if◌then◌else◌, get_elem?,
}
use xray_vless_ws_go.Tunnel.Watch.{Action, Reason, Watcher, start_state, watch}
use xray_vless_ws_go.Tunnel.Supervisor.{
  backoff_initial, backoff_max, next_backoff, Round, done_before, not_launched, launched, Step,
  start, watching, terminate, kill, log_not_launched, log_restart, sleep, Stand, after_watch, run,
}

abbrev pub sleeps : List Step → List ℕ
sleeps [] = []
sleeps (start ∷ steps) = sleeps steps
sleeps (watching action ∷ steps) = sleeps steps
sleeps (terminate ∷ steps) = sleeps steps
sleeps (kill ∷ steps) = sleeps steps
sleeps (log_not_launched ∷ steps) = sleeps steps
sleeps (log_restart reason ∷ steps) = sleeps steps
sleeps (sleep d ∷ steps) = d ∷ sleeps steps

-- Doubled `k` times from `d`, and never more than a minute.
abbrev pub doubled : ℕ → ℕ → ℕ
doubled d k = if ltb backoff_max (d * 2 ^ k) then backoff_max else d * 2 ^ k

-- The members of a list are the doubled sleeps from `d` on.
abbrev pub Doubles : ℕ → List ℕ → Type 0
Doubles d [] = Unit
Doubles d (x ∷ xs) = (x ≡ d) × Doubles (next_backoff d) xs

sleeps-watching :
    (acts : List Action) (steps : List Step) → sleeps (map watching acts ++ steps) ≡ sleeps steps
sleeps-watching [] steps = refl
sleeps-watching (action ∷ acts) steps = sleeps-watching acts steps

after_watch-Doubles :
    (d : ℕ) (is_done slept : Bool) (reason : Option Reason) (rest : Stand × List Step)
    → Doubles (next_backoff d) (sleeps rest.1)
    → Doubles d (sleeps (after_watch d is_done slept reason rest).1)
unfolding after_watch
after_watch-Doubles d is_done slept none rest h = tt
after_watch-Doubles d true slept (some reason) rest h = tt
after_watch-Doubles d false true (some reason) rest h = (refl, h)
after_watch-Doubles d false false (some reason) rest h = (refl, tt)

run-Doubles : (w : Watcher) (d : ℕ) (rounds : List Round) → Doubles d (sleeps (run w d rounds).1)
unfolding run
run-Doubles w d [] = tt
run-Doubles w d (done_before ∷ rounds) = tt
run-Doubles w d (not_launched true ∷ rounds) = (refl, run-Doubles w (next_backoff d) rounds)
run-Doubles w d (not_launched false ∷ rounds) = (refl, tt)
run-Doubles w d (launched events is_done slept ∷ rounds) =
    rw
      (sleeps-watching (watch w start_state events).1
        (after_watch d is_done slept (watch w start_state events).0
          (run w (next_backoff d) rounds)).1)
      (after_watch-Doubles d is_done slept (watch w start_state events).0
        (run w (next_backoff d) rounds) (run-Doubles w (next_backoff d) rounds))

le-mul : (x p : ℕ) → 1 ≤ p → x ≤ x * p
le-mul x zero h = omega arith
le-mul x (suc p) h = omega arith

pow_positive : (k : ℕ) → 1 ≤ 2 ^ k
pow_positive zero = omega arith
pow_positive (suc k) = omega (arith, pow_positive k)

pow-suc : (k : ℕ) → 2 ^ suc k ≡ 2 * 2 ^ k
pow-suc k = omega arith

mul-two : (d p : ℕ) → d * (2 * p) ≡ d * 2 * p
mul-two d p = omega arith

capped :
    (d p : ℕ)
    → 1 ≤ p
    → d ≤ backoff_max
    → (let y = next_backoff d * p in if ltb backoff_max y then backoff_max else y)
      ≡ (let y = d * (2 * p) in if ltb backoff_max y then backoff_max else y)
unfolding next_backoff
capped d p hp hd = ground (arith, le-mul (d * 2) p hp, le-mul backoff_max p hp, mul-two d p)

doubled-next_backoff : (d k : ℕ) → d ≤ backoff_max → doubled (next_backoff d) k ≡ doubled d (suc k)
unfolding next_backoff
doubled-next_backoff d k h = rw (pow-suc k) (capped d (2 ^ k) (pow_positive k) h)

next_backoff-le : (d : ℕ) → next_backoff d ≤ backoff_max
unfolding next_backoff
next_backoff-le d = ground arith

Doubles-get_elem? :
    (d : ℕ) (xs : List ℕ) (k x : ℕ)
    → d ≤ backoff_max
    → Doubles d xs
    → get_elem? xs k ≡ some x
    → x ≡ doubled d k
Doubles-get_elem? d [] k x le h e = cc
Doubles-get_elem? d (y ∷ ys) zero x le (p, h) e = ground arith
Doubles-get_elem? d (y ∷ ys) (suc k) x le (p, h) e =
    Doubles-get_elem? (next_backoff d) ys k x (next_backoff-le d) h e ∙ doubled-next_backoff d k le

-- The sleep with the index `k` takes two seconds doubled `k` times, or a minute where that is less.
pub run-doubled :
    (w : Watcher) (rounds : List Round) (k x : ℕ)
    → get_elem? (sleeps (run w backoff_initial rounds).1) k ≡ some x
    → x ≡ doubled backoff_initial k
run-doubled w rounds k x h =
    Doubles-get_elem? backoff_initial (sleeps (run w backoff_initial rounds).1) k x (omega arith)
      (run-Doubles w backoff_initial rounds) h
