-- ===== src/Tunnel/Launch/Process.antt =====
-- internal/tunnel/launch.go: `Launch` as the trace of what it asks of the operating system, by the
-- answers; and the operations of a Handle.
use xray_vless_ws_go.Base.{
  Bool, List, [], ◌∷◌, ◌++◌, Option, none, some, Bytes, codes, Result, ok, err,
}
use xray_vless_ws_go.Text.Decimal.{ℤ, format_int}
use xray_vless_ws_go.Config.{Config}
use xray_vless_ws_go.Tunnel.Launch.{LaunchPlan, launch_plan}

-- What the system is asked for. The two ends of the pipe are closed one by one.
pub data LaunchAction : Type 0 where
  wrote_file : (path contents : Bytes) → LaunchAction
  opened_pipe closed_reader closed_writer : LaunchAction
  started not_started : (bin : Bytes) → (args : List Bytes) → (dir : Bytes) → LaunchAction

-- net.Listen on port 0 with the port that it got, os.WriteFile, os.Pipe and `cmd.Start`, each with
-- the text of its error; and filepath.Join.
pub record System : Type 0 where
  pub free_port : Result Bytes ℤ
  pub write_error : Option Bytes
  pub pipe_error : Option Bytes
  pub start_error : Option Bytes
  pub join_path : Bytes → Bytes → Bytes

-- `Handle`; its reader is the one that the pipe left open.
pub record Handle : Type 0 where
  pub metrics_addr : Bytes
  pub named : Bool

abbrev pub LaunchResult : Type 0
LaunchResult = Result Bytes Handle × List LaunchAction

unfoldable pub start_process :
    System → Bytes → Bytes → Bytes → LaunchPlan → Option Bytes → LaunchResult
start_process sys bin dir metrics plan (some e) = (
  err (codes "tunnel: starting cloudflared: " ++ e),
  not_started bin plan.args dir ∷ closed_reader ∷ closed_writer ∷ [],
)
start_process sys bin dir metrics plan none = (
  ok (record { metrics_addr = metrics; named = plan.named }),
  started bin plan.args dir ∷ closed_writer ∷ [],
)

unfoldable pub open_pipe : System → Bytes → Bytes → Bytes → LaunchPlan → Option Bytes → LaunchResult
unfolding start_process
open_pipe sys bin dir metrics plan (some e) =
    (err (codes "tunnel: creating stdout pipe: " ++ e), [])
open_pipe sys bin dir metrics plan none =
    let rest = start_process sys bin dir metrics plan sys.start_error in
    (rest.0, opened_pipe ∷ rest.1)

-- The config file of a named tunnel comes first.
unfoldable pub write_config : Bytes → Option Bytes → Option Bytes → LaunchResult → LaunchResult
write_config path none e rest = rest
write_config path (some contents) (some e) rest =
    (err (codes "tunnel: writing config.yml: " ++ e), wrote_file path contents ∷ [])
write_config path (some contents) none rest = (rest.0, wrote_file path contents ∷ rest.1)

unfoldable pub launch_on : System → Config → Bytes → Bytes → Result Bytes ℤ → LaunchResult
unfolding launch_plan write_config open_pipe
launch_on sys cfg bin dir (err e) = (err (codes "tunnel: picking a free metrics port: " ++ e), [])
launch_on sys cfg bin dir (ok port) =
    let metrics = codes "127.0.0.1:" ++ format_int port in
    let path = sys.join_path dir (codes "config.yml") in
    let plan = launch_plan cfg path metrics in
    write_config path plan.config_file sys.write_error
      (open_pipe sys bin dir metrics plan sys.pipe_error)

unfoldable pub launch : System → Config → Bytes → Bytes → LaunchResult
unfolding launch_on
launch sys cfg bin dir = launch_on sys cfg bin dir sys.free_port

-- `Terminate` and `Kill`: a signal to the process, where there is one.
unfoldable pub signal {ℓ} : {P : Type ℓ} → (P → Option Bytes) → Option P → Option Bytes
signal send none = none
signal send (some p) = send p
