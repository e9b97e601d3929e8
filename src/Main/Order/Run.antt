-- ===== src/Main/Order/Run.antt =====
-- A whole run: its order, and what it leaves behind.
use xray_vless_ws_go.Base.{
  ℕ, suc, ◌≤◌, ◌≡◌, ◌≢◌, refl, ap, Bool, true, false, ◌&&◌, [], ◌∷◌, Option, none, some, arith,
  Bytes, bytes_eq, All, Result, ok, err,
}
use xray_vless_ws_go.Base.Script.{
  fail_if, wrap, when, Leaves, Leaves-weaken, Triple, Triple-bind, Triple-wrap, Triple-finally,
  Triple-when,
}
use xray_vless_ws_go.Text.Decimal.{ℤ}
use xray_vless_ws_go.Config.{Config}
use xray_vless_ws_go.Main.{
  Action, export_secret_env, load_config, ensure_cloudflare, new_engine, wait_group, close_engine,
  Trace, Answers, is_enabled, provisioned, act, ask, returning, run_engine, dashboard,
  run_configured, run,
}
use xray_vless_ws_go.Main.Order.{
  rank, Below, Down, IsGuarded, Before, Running, Below-weaken, Waited,
}
use xray_vless_ws_go.Main.Order.Services.{run_services-Running}

non_empty : (xs : Bytes) → bytes_eq xs [] ≡ false → xs ≢ []
unfolding bytes_eq
non_empty [] h e = cc
non_empty (x ∷ xs) h e = cc

module _ (answers : Answers) (ci_mode : Bool) (log_port : ℤ) where
  -- A run that ends well waits for the goroutines, at most ten seconds, and then closes the engine.
  abbrev Ended : Trace → Type 0
  Ended w = Before 18 w × ((w' : Trace) × (w ≡ close_engine ∷ wait_group (answers.drained w') ∷ w'))

  run_engine-Ended :
      (cfg : Config) (contents : Bytes) (failure : Option Bytes)
      → Triple
          (Before 5)
          Ended
          (Before 18)
          (run_engine answers ci_mode log_port cfg contents failure)
  unfolding run_engine rank
  run_engine-Ended cfg contents (some e) = record {
    at = λ w (b, d, g). ((omega arith, b), d, (tt, g));
  }
  run_engine-Ended cfg contents none = record {
    at = λ w (b, d, g).
        (Triple-finally {P = Running 6} {Q = Waited answers} {Q' = Ended} {R = Running 17}
            {R' = Before 18} (λ w. close_engine ∷ w)
            (run_services-Running answers ci_mode log_port cfg)
            (λ w ((b, g), (w', e)).
              (((omega arith, b), tt, (tt, g)), (w', ap (λ w. close_engine ∷ w) e)))
            (λ w (b, g). ((omega arith, b), tt, (tt, g)))).at
          (new_engine contents true ∷ w) ((omega arith, b), (tt, g));
  }

  Before-weaken : (n m : ℕ) (w : Trace) → n ≤ m → Before n w → Before m w
  Before-weaken n m w h (b, d, g) = (Below-weaken n m w h b, d, g)

  -- A step that starts no engine.
  returning-Before :
      {A : Type 0} (g : Bytes → Bytes) (n : ℕ) (r : Result Bytes A)
      → n ≤ 18
      → Triple (Before n) (Before n) (Before 18) (wrap g (returning r))
  returning-Before g n (ok a) h = Triple-wrap g (record { at = λ w p. p })
  returning-Before g n (err e) h = Triple-wrap g (record { at = λ w p. Before-weaken n 18 w h p })

  run_configured-Ended :
      (cfg : Config)
      → (is_enabled log_port ≡ true → cfg.log_password ≢ [])
      → Triple (Before 3) Ended (Before 18) (run_configured answers ci_mode log_port cfg)
  unfolding run_configured dashboard rank when
  run_configured-Ended cfg h = Triple-bind {Q = Before 4} (by_port (is_enabled log_port) h) (λ _.
      Triple-bind (returning-Before _ 4 _ (omega arith)) (λ contents.
        Triple-bind {Q = Before 5}
          (Triple-when cfg.debug_mode
            (record { at = λ w (b, d, g). ((omega arith, b), d, (tt, g)) })
            (λ w. Before-weaken 4 5 w (omega arith)))
          (λ _. record {
            at = λ w p. (run_engine-Ended cfg contents (answers.start_engine w contents)).at w p;
          })))
    where
      by_port :
          (on : Bool)
          → (on ≡ true → cfg.log_password ≢ [])
          → Triple
              (Before 3)
              (Before 4)
              (Before 18)
              (when on (act (dashboard answers ci_mode log_port cfg)))
      by_port true h = record { at = λ w (b, d, g). ((omega arith, b), d, (h refl, g)) }
      by_port false h = record { at = λ w p. Before-weaken 3 4 w (omega arith) p }

  ask-Before :
      {A : Type 0} (g : Bytes → Bytes) (a : Action) (n : ℕ) (answer : Trace → Result Bytes A)
      → n ≤ rank a
      → suc (rank a) ≤ 18
      → ((w : Trace) → Down w → Down (a ∷ w))
      → IsGuarded a
      → Triple (Before n) (Before (suc (rank a))) (Before 18) (wrap g (ask a answer))
  ask-Before {A} g a n answer h k d gd =
      Triple-wrap g (record { at = λ w p. by_answer (answer w) w p })
    where
      by_answer :
          (r : Result Bytes A) (w : Trace)
          → Before n w
          → Leaves (Before (suc (rank a))) (Before 18) (r, a ∷ w)
      by_answer (ok x) w p = ((omega arith, Below-weaken n (rank a) w h p.0), d w p.1, (gd, p.2))
      by_answer (err e) w p =
          ((omega (arith, k), Below-weaken n (rank a) w h p.0), d w p.1, (gd, p.2))

  -- What stands behind the test of the password.
  Permitted : Config → Trace → Type 0
  Permitted cfg w = Before 2 w × (is_enabled log_port ≡ true → cfg.log_password ≢ [])

  fail_if-Permitted :
      (cfg : Config) (e : Bytes)
      → Triple
          (Before 2)
          (Permitted cfg)
          (Before 18)
          (fail_if (is_enabled log_port && bytes_eq cfg.log_password []) e)
  unfolding Permitted
  fail_if-Permitted cfg e =
      by_test (is_enabled log_port) (bytes_eq cfg.log_password []) (non_empty cfg.log_password)
    where
      by_test :
          (on blank : Bool)
          → (blank ≡ false → cfg.log_password ≢ [])
          → Triple
              (Before 2)
              (λ w. Before 2 w × (on ≡ true → cfg.log_password ≢ []))
              (Before 18)
              (fail_if (on && blank) e)
      by_test true true h = record { at = λ w p. Before-weaken 2 18 w (omega arith) p }
      by_test true false h = record { at = λ w p. (p, λ _. h refl) }
      by_test false blank h = record { at = λ w p. (p, λ x. cc) }

  run-Ended : Triple (Before 0) Ended (Before 18) (run answers ci_mode log_port)
  unfolding run rank Permitted provisioned
  run-Ended =
      Triple-bind {Q = Before 1}
        (Triple-when ci_mode
          (ask-Before _ export_secret_env 0 _ (omega arith) (omega arith) (λ w d. d) tt)
          (λ w. Before-weaken 0 1 w (omega arith)))
        (λ _.
          Triple-bind (ask-Before _ load_config 1 _ (omega arith) (omega arith) (λ w d. d) tt)
            (λ cfg. Triple-bind (fail_if-Permitted cfg _) (λ _. record {
              at = λ w ((b, d, g), f).
                  (run_configured-Ended (provisioned cfg (answers.ensure w cfg)) f).at
                    (ensure_cloudflare ∷ w) ((omega arith, b), d, (tt, g));
            })))

module _ (answers : Answers) (ci_mode : Bool) (log_port : ℤ) where
  -- A run, whatever the packages answer, does each of its actions at most once and in the order of
  -- their ranks: the export of CI's secret, the load of the configuration, the deployment, the
  -- dashboard, the engine, the tunnel, the goroutines, and the shutdown. No engine runs after it. A
  -- run that ends well has last waited until its goroutines ended, or for ten seconds where they did
  -- not, and then closed the engine.
  pub run-InOrder :
      Leaves
        (λ w.
          Below 18 w
          × Down w
          × ((w' : Trace) × (w ≡ close_engine ∷ wait_group (answers.drained w') ∷ w')))
        (λ w. Below 18 w × Down w)
        (run answers ci_mode log_port [])
  run-InOrder =
      Leaves-weaken (Ended answers ci_mode log_port) _ (Before 18) _
        (run answers ci_mode log_port []) ((run-Ended answers ci_mode log_port).at [] (tt, tt, tt))
        (λ w ((b, d, g), e). (b, d, e)) (λ w (b, d, g). (b, d))

  -- Whatever the packages answer, and wherever the run ends, each dashboard that it served had a
  -- password.
  pub run-IsGuarded : Leaves (All IsGuarded) (All IsGuarded) (run answers ci_mode log_port [])
  run-IsGuarded =
      Leaves-weaken (Ended answers ci_mode log_port) _ (Before 18) _
        (run answers ci_mode log_port []) ((run-Ended answers ci_mode log_port).at [] (tt, tt, tt))
        (λ w ((b, d, g), e). g) (λ w (b, d, g). g)
