-- ===== src/Main/Order.antt =====
-- The order of what `run` does, as ranks of its actions, and what holds of a trace that keeps to it.
pub mod Services
pub mod Run
use xray_vless_ws_go.Base.{
  ℕ, suc, ◌<◌, ◌≤◌, ◌≡◌, ◌≢◌, refl, ap, Bool, true, false, ◌&&◌, List, [], ◌∷◌, Option, none, some,
  arith, Bytes, bytes_eq, All, Result, ok, err,
}
use xray_vless_ws_go.Base.Script.{
  fail_if, wrap, when, Leaves, Leaves-weaken, Triple, Triple-bind, Triple-wrap, Triple-finally,
  Triple-when,
}
use xray_vless_ws_go.Text.Decimal.{ℤ}
use xray_vless_ws_go.Config.{Config, InboundAddr}
use xray_vless_ws_go.Main.{
  Action, export_secret_env, load_config, ensure_cloudflare, serve_dashboard, dump_config,
  new_engine, xray_up, ensure_binary, supervise, sample_traffic, probe, watch_and_upload,
  schedule_bridge, schedule_self_exit, done, xray_down, wait_group, close_engine, Trace, Answers,
  is_enabled, provisioned, act, ask, returning, start_probe, start_ci, stop_services, run_services,
  run_engine, dashboard, run_configured, run,
}

-- Where an action stands in a run.
unfoldable pub rank : Action → ℕ
rank export_secret_env = 0
rank load_config = 1
rank ensure_cloudflare = 2
rank (serve_dashboard _ _ _) = 3
rank (dump_config _) = 4
rank (new_engine _ _) = 5
rank xray_up = 6
rank ensure_binary = 7
rank (supervise _ _) = 8
rank sample_traffic = 9
rank (probe _) = 10
rank watch_and_upload = 11
rank schedule_bridge = 12
rank schedule_self_exit = 13
rank done = 14
rank xray_down = 15
rank (wait_group in_time) = 16
rank close_engine = 17

-- A trace of actions of lower ranks, each above the one before it.
abbrev pub Below : ℕ → Trace → Type 0
Below n [] = Unit
Below n (a ∷ w) = (rank a < n) × Below (rank a) w

-- No engine runs.
abbrev pub Down : Trace → Type 0
Down [] = Unit
Down (close_engine ∷ w) = Unit
Down (new_engine _ true ∷ w) = ⊥
Down (_ ∷ w) = Down w

-- A dashboard has a password.
abbrev pub IsGuarded : Action → Type 0
IsGuarded (serve_dashboard _ password _) = password ≢ []
IsGuarded _ = Unit

-- What holds before the engine is started, and while it runs.
abbrev pub Before : ℕ → Trace → Type 0
Before n w = Below n w × Down w × All IsGuarded w

abbrev pub Running : ℕ → Trace → Type 0
Running n w = Below n w × All IsGuarded w

pub Below-weaken : (n m : ℕ) (w : Trace) → n ≤ m → Below n w → Below m w
Below-weaken n m [] h b = tt
Below-weaken n m (a ∷ w) h (b, bs) = (omega (arith, h, b), bs)

-- A step while the engine runs: the rank of its action is the least that is not yet used.
pub act-Running :
    (a : Action) (n m : ℕ)
    → n ≤ rank a
    → rank a < m
    → IsGuarded a
    → Triple (Running n) (Running m) (Running 17) (act a)
act-Running a n m h k g = record { at = λ w (b, gs). ((k, Below-weaken n (rank a) w h b), (g, gs)) }

pub Running-weaken : (n m : ℕ) (w : Trace) → n ≤ m → Running n w → Running m w
Running-weaken n m w h (b, g) = (Below-weaken n m w h b, g)

-- Behind the services the last action is the wait for the goroutines.
abbrev pub Waited : Answers → Trace → Type 0
Waited answers w = Running 17 w × ((w' : Trace) × (w ≡ wait_group (answers.drained w') ∷ w'))
