-- ===== src/Main/Order/Services.antt =====
-- What `run` does while the engine runs, in order.
use xray_vless_ws_go.Base.{ℕ, ◌<◌, ◌≤◌, refl, Bool, List, [], ◌∷◌, arith, Bytes, Result, ok, err}
use xray_vless_ws_go.Base.Script.{wrap, when, Leaves, Triple, Triple-bind, Triple-wrap, Triple-when}
use xray_vless_ws_go.Text.Decimal.{ℤ}
use xray_vless_ws_go.Config.{Config, InboundAddr}
use xray_vless_ws_go.Main.{
  Action, xray_up, ensure_binary, supervise, sample_traffic, probe, watch_and_upload,
  schedule_bridge, schedule_self_exit, done, xray_down, Trace, Answers, is_enabled, act, ask,
  start_probe, start_ci, stop_services, run_services,
}
use xray_vless_ws_go.Main.Order.{rank, IsGuarded, Running, act-Running, Running-weaken, Waited}

module _ (answers : Answers) (ci_mode : Bool) (log_port : ℤ) where
  start_probe-Running :
      (ps : List InboundAddr)
      → Triple (Running 10) (Running 11) (Running 17) (start_probe answers ci_mode log_port ps)
  unfolding start_probe rank
  start_probe-Running [] = record { at = λ w h. Running-weaken 10 11 w (omega arith) h }
  start_probe-Running (p ∷ ps) = act-Running (probe _) 10 11 (omega arith) (omega arith) tt

  start_ci-Running :
      Triple (Running 11) (Running 14) (Running 17) (start_ci answers ci_mode log_port)
  unfolding start_ci rank
  start_ci-Running =
      Triple-bind (act-Running watch_and_upload 11 12 (omega arith) (omega arith) tt) (λ _.
        Triple-bind (act-Running schedule_bridge 12 13 (omega arith) (omega arith) tt)
          (λ _. act-Running schedule_self_exit 13 14 (omega arith) (omega arith) tt))

  maybe :
      (c : Bool) (a : Action) (n m : ℕ)
      → n ≤ rank a
      → rank a < m
      → IsGuarded a
      → Triple (Running n) (Running m) (Running 17) (when c (act a))
  maybe c a n m h k g =
      Triple-when c (act-Running a n m h k g) (λ w. Running-weaken n m w (omega (arith, h, k)))

  ask_binary-Running :
      (g : Bytes → Bytes)
      → Triple (Running 7) (Running 8) (Running 17) (wrap g (ask ensure_binary answers.find_binary))
  ask_binary-Running g =
      Triple-wrap g (record { at = λ w h. by_answer (answers.find_binary w) w h })
    where
      by_answer :
          (r : Result Bytes Bytes) (w : Trace)
          → Running 7 w
          → Leaves (Running 8) (Running 17) (r, ensure_binary ∷ w)
      by_answer (ok path) w h = unfold rank in ((omega arith, h.0), (tt, h.1))
      by_answer (err e) w h = unfold rank in ((omega arith, h.0), (tt, h.1))

  stop_services-Waited :
      Triple (Running 14) (Waited answers) (Running 17) (stop_services answers ci_mode log_port)
  unfolding stop_services rank
  stop_services-Waited = Triple-bind (act-Running done 14 15 (omega arith) (omega arith) tt) (λ _.
      Triple-bind (maybe (is_enabled log_port) xray_down 15 16 (omega arith) (omega arith) tt)
        (λ _. record { at = λ w (b, g). (((omega arith, b), (tt, g)), (w, refl)) }))

  pub run_services-Running :
      (cfg : Config)
      → Triple (Running 6) (Waited answers) (Running 17) (run_services answers ci_mode log_port cfg)
  unfolding run_services rank
  run_services-Running cfg =
      let on = is_enabled log_port in
      Triple-bind (maybe on xray_up 6 7 (omega arith) (omega arith) tt) (λ _.
        Triple-bind (ask_binary-Running _) (λ path.
          Triple-bind (act-Running (supervise cfg path) 8 9 (omega arith) (omega arith) tt) (λ _.
            Triple-bind (maybe on sample_traffic 9 10 (omega arith) (omega arith) tt) (λ _.
              Triple-bind
                (Triple-when on (start_probe-Running cfg.ports)
                  (λ w. Running-weaken 10 11 w (omega arith)))
                (λ _.
                  Triple-bind
                    (Triple-when ci_mode start_ci-Running
                      (λ w. Running-weaken 11 14 w (omega arith)))
                    (λ _. stop_services-Waited))))))
