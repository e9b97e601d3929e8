-- ===== src/Main.antt =====
-- cmd/xrayws/main.go: `run` and `main`. What the packages answer are arguments, which may depend on
-- all that was done until then; the actions are a trace, the last one first. What is printed is left
-- out, and so are the bodies of the goroutines, which are operations of the other modules.
pub mod Order
pub mod Callbacks
pub mod Provisioning
pub mod Reachability
mod Tests
mod CallbackTests
mod ReachabilityTests
use xray_vless_ws_go.Base.{
  ℕ, zero, suc, ◌≡◌, refl, Bool, true, false, not, ◌&&◌, List, [], ◌∷◌, ◌++◌, Option, none, some,
  Bytes, codes, bytes_eq, concat, Result, ok, err, if◌then◌else◌,
}
use xray_vless_ws_go.Base.Script.{Script, pure, fail_if, ◌>>=◌, ◌>>◌, wrap, when, finally}
use xray_vless_ws_go.Text.Decimal.{ℤ, pos, negsuc, format_int}
use xray_vless_ws_go.Config.{Config, InboundAddr}
use xray_vless_ws_go.CfDeploy.Ensure.{Outcome}
use xray_vless_ws_go.Xray.Json.{Json}
use xray_vless_ws_go.Xray.BuildConfig.{BuildError, nil_config, no_ports, marshaling, build_config}

-- What `run` does besides its tests: calls of the packages, and the goroutines that it starts.
pub data Action : Type 0 where
  export_secret_env load_config ensure_cloudflare : Action
  -- The log server: its address, password and domain.
  serve_dashboard : (address password domain : Bytes) → Action
  dump_config : (contents : Bytes) → Action
  -- Whether the engine was started.
  new_engine : (contents : Bytes) (up : Bool) → Action
  xray_up ensure_binary : Action
  supervise : (cfg : Config) (bin_path : Bytes) → Action
  sample_traffic : Action
  probe : (address : Bytes) → Action
  watch_and_upload schedule_bridge schedule_self_exit : Action
  done xray_down close_engine : Action
  -- Whether the goroutines ended within ten seconds.
  wait_group : (in_time : Bool) → Action

abbrev pub Trace : Type 0
Trace = List Action

-- An error is its text.
pub record Answers : Type 0 where
  pub export_secret : Trace → Option Bytes
  pub load : Trace → Result Bytes Config
  pub ensure : Trace → Config → Outcome
  pub marshal_indent : Json → Result Bytes Bytes
  pub start_engine : Trace → Bytes → Option Bytes
  pub find_binary : Trace → Result Bytes Bytes
  -- Whether `wg.Wait` returns within the ten seconds of the shutdown.
  pub drained : Trace → Bool

unfoldable pub is_enabled : ℤ → Bool
is_enabled (pos zero) = false
is_enabled (pos (suc n)) = true
is_enabled (negsuc n) = false

-- The assignments behind `cfdeploy.Ensure`, whatever its error.
unfoldable pub provisioned : Config → Outcome → Config
unfolding bytes_eq
provisioned cfg o = record cfg {
  webhook_url = if bytes_eq o.webhook_url [] then cfg.webhook_url else o.webhook_url;
  tunnel_token = if bytes_eq o.tunnel_token [] then cfg.tunnel_token else o.tunnel_token;
}

-- The address that the liveness probe dials: of the first port, on the loopback where it listens on
-- every interface.
unfoldable pub probe_address : InboundAddr → Bytes
unfolding bytes_eq format_int
probe_address p =
    let host = if bytes_eq p.listen_ip (codes "0.0.0.0") then codes "127.0.0.1" else p.listen_ip in
    host ++ (b':' ∷ format_int p.port)

abbrev build_error : BuildError → Bytes
build_error nil_config = codes "xraycore: nil config"
build_error no_ports = codes "xraycore: config has no inbound ports"
build_error (marshaling e) = codes "xraycore: marshaling config: " ++ e

abbrev pub act : Action → Script Trace Bytes Unit
act a w = (ok tt, a ∷ w)

abbrev to_result : Option Bytes → Result Bytes (Unit {0})
to_result none = ok tt
to_result (some e) = err e

abbrev with_text : {A : Type 0} → Result BuildError A → Result Bytes A
with_text (ok a) = ok a
with_text (err e) = err (build_error e)

-- A call that answers behind its action.
abbrev pub ask : {A : Type 0} → Action → (Trace → Result Bytes A) → Script Trace Bytes A
ask a answer w = (answer w, a ∷ w)

abbrev pub returning : {A : Type 0} → Result Bytes A → Script Trace Bytes A
returning r w = (r, w)

abbrev prefixed : Bytes → Bytes → Bytes
prefixed text e = text ++ e

module _ (answers : Answers) (ci_mode : Bool) (log_port : ℤ) where
  -- The goroutines behind the supervisor.
  unfoldable pub start_probe : List InboundAddr → Script Trace Bytes Unit
  unfolding probe_address
  start_probe [] = pure tt
  start_probe (p ∷ ps) = act (probe (probe_address p))

  unfoldable pub start_ci : Script Trace Bytes Unit
  start_ci = do act watch_and_upload; act schedule_bridge; act schedule_self_exit

  -- The `select` on the end of the goroutines and on ten seconds.
  unfoldable pub wait : Script Trace Bytes Unit
  wait w = (ok tt, wait_group (answers.drained w) ∷ w)

  -- The shutdown, once the context is done.
  unfoldable pub stop_services : Script Trace Bytes Unit
  unfolding is_enabled wait
  stop_services = do act done; when (is_enabled log_port) (act xray_down); wait

  -- From the started engine to the end of the shutdown.
  unfoldable pub run_services : Config → Script Trace Bytes Unit
  unfolding start_probe start_ci is_enabled stop_services
  run_services cfg = do
    when (is_enabled log_port) (act xray_up)
    bin_path ← wrap (prefixed (codes "tunnel: ")) (ask ensure_binary answers.find_binary)
    act (supervise cfg bin_path)
    when (is_enabled log_port) (act sample_traffic)
    when (is_enabled log_port) (start_probe cfg.ports)
    when ci_mode start_ci
    stop_services

  -- `xraycore.New`, and the deferred Close where there is an engine.
  unfoldable pub run_engine : Config → Bytes → Option Bytes → Script Trace Bytes Unit
  unfolding run_services
  run_engine cfg contents (some e) w =
      (err (codes "xraycore: " ++ e), new_engine contents false ∷ w)
  run_engine cfg contents none w =
      finally (run_services cfg) (λ w. close_engine ∷ w) (new_engine contents true ∷ w)

  abbrev pub start_engine : Config → Bytes → Script Trace Bytes Unit
  start_engine cfg contents w = run_engine cfg contents (answers.start_engine w contents) w

  unfoldable pub dashboard : Config → Action
  unfolding format_int
  dashboard cfg =
      serve_dashboard (codes "0.0.0.0:" ++ format_int log_port) cfg.log_password cfg.domain

  -- From the provisioned configuration.
  unfoldable pub run_configured : Config → Script Trace Bytes Unit
  unfolding run_engine is_enabled build_config dashboard
  run_configured cfg = do
    when (is_enabled log_port) (act (dashboard cfg))
    contents ←
        wrap (prefixed (codes "xraycore: "))
          (returning (with_text (build_config answers.marshal_indent (some cfg))))
    when cfg.debug_mode (act (dump_config contents))
    start_engine cfg contents

  abbrev no_password : Bytes
  no_password =
      codes "log-port "
      ++ (format_int log_port ++ codes " is enabled but LOG_PASSWORD is empty in .env")

  -- From `cfdeploy.Ensure`.
  abbrev pub run_provisioned : Config → Script Trace Bytes Unit
  run_provisioned cfg w =
      run_configured (provisioned cfg (answers.ensure w cfg)) (ensure_cloudflare ∷ w)

  unfoldable pub run : Script Trace Bytes Unit
  unfolding run_configured is_enabled provisioned bytes_eq
  run = do
    when ci_mode (
        wrap (prefixed (codes "ci: "))
          (ask export_secret_env (λ w. to_result (answers.export_secret w))))
    cfg ← wrap (prefixed (codes "config: ")) (ask load_config answers.load)
    fail_if (is_enabled log_port && bytes_eq cfg.log_password []) no_password
    run_provisioned cfg

-- The flags of the command line.
pub record Flags : Type 0 where
  pub show_version : Bool
  pub update : Bool
  pub rollback : Bool

pub data Mode : Type 0 where
  print_version run_update run_rollback run_proxy : Mode

-- What `main` does.
unfoldable pub mode_of : Flags → Mode
mode_of f =
    if f.show_version
    then print_version
    else if f.update
    then run_update
    else if f.rollback
    then run_rollback
    else run_proxy

-- The status that the process ends with, by the error of what it did.
unfoldable pub exit_status : Mode → Option Bytes → ℕ
exit_status print_version e = 0
exit_status mode none = 0
exit_status mode (some e) = 1
