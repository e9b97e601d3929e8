-- ===== src/Tunnel/Launch/Laws.antt =====
-- What a launch leaves open, and where the token of a named tunnel goes.
use xray_vless_ws_go.Base.{
  ℕ, suc, All, ◌≡◌, ◌≢◌, refl, List, [], ◌∷◌, ◌++◌, map, Option, none, some, Bytes, codes,
  bytes_eq_ne, Result, ok, err, ◌-◌,
}
use xray_vless_ws_go.Text.Decimal.{ℤ, format_int}
use xray_vless_ws_go.Config.{Config}
use xray_vless_ws_go.Tunnel.Launch.{LaunchPlan, launch_plan, named_plan, named_tunnel_config}
use xray_vless_ws_go.Tunnel.Launch.Process.{
  LaunchAction, wrote_file, opened_pipe, closed_reader, closed_writer, started, not_started, System,
  LaunchResult, start_process, open_pipe, write_config, launch_on, launch,
}

-- The two ends of the pipe and the process, behind a list of actions.
pub record Held : Type 0 where
  pub reader : ℕ
  pub writer : ℕ
  pub processes : ℕ

abbrev pub held_from : Held → List LaunchAction → Held
held_from h [] = h
held_from h (opened_pipe ∷ rest) =
    held_from (record h { reader = suc h.reader; writer = suc h.writer }) rest
held_from h (closed_reader ∷ rest) = held_from (record h { reader = h.reader - 1 }) rest
held_from h (closed_writer ∷ rest) = held_from (record h { writer = h.writer - 1 }) rest
held_from h (started bin args dir ∷ rest) =
    held_from (record h { processes = suc h.processes }) rest
held_from h (not_started bin args dir ∷ rest) = held_from h rest
held_from h (wrote_file path contents ∷ rest) = held_from h rest

abbrev nothing : Held
nothing = record { reader = 0; writer = 0; processes = 0 }

abbrev pub held : List LaunchAction → Held
held actions = held_from nothing actions

-- One process and the end of its pipe that is read, or nothing behind an error.
abbrev pub Settles : LaunchResult → Type 0
Settles (ok h, actions) = held actions ≡ record { reader = 1; writer = 0; processes = 1 }
Settles (err e, actions) = held actions ≡ nothing

write_config-Settles :
    (path : Bytes) (file e : Option Bytes) (rest : LaunchResult)
    → Settles rest
    → Settles (write_config path file e rest)
unfolding write_config
write_config-Settles path none e rest h = h
write_config-Settles path (some contents) (some e) rest h = refl
write_config-Settles path (some contents) none (ok x, actions) h = h
write_config-Settles path (some contents) none (err x, actions) h = h

module _ (sys : System) (bin dir : Bytes) where
  open_pipe-Settles :
      (metrics : Bytes) (plan : LaunchPlan) (p s : Option Bytes)
      → sys.start_error ≡ s
      → Settles (open_pipe sys bin dir metrics plan p)
  unfolding open_pipe start_process
  open_pipe-Settles metrics plan (some e) s h = refl
  open_pipe-Settles metrics plan none (some e) h = rw h refl
  open_pipe-Settles metrics plan none none h = rw h refl

  launch_on-Settles :
      (cfg : Config) (port : Result Bytes ℤ) → Settles (launch_on sys cfg bin dir port)
  unfolding launch_on
  launch_on-Settles cfg (err e) = refl
  launch_on-Settles cfg (ok port) =
      let metrics = codes "127.0.0.1:" ++ format_int port in
      let path = sys.join_path dir (codes "config.yml") in
      let plan = launch_plan cfg path metrics in
      write_config-Settles path plan.config_file sys.write_error _
        (open_pipe-Settles metrics plan sys.pipe_error _ refl)

-- Whatever the system answers: a launch that returns a handle has started one process, and holds the
-- end of its pipe that is read and not the one that is written; a launch that fails holds nothing.
pub launch-Settles :
    (sys : System) (cfg : Config) (bin dir : Bytes) → Settles (launch sys cfg bin dir)
unfolding launch
launch-Settles sys cfg bin dir = launch_on-Settles sys bin dir cfg sys.free_port

abbrev pub all_but_last : List Bytes → List Bytes
all_but_last [] = []
all_but_last (x ∷ []) = []
all_but_last (x ∷ y ∷ ys) = x ∷ all_but_last (y ∷ ys)

-- An action without the last argument of a command line.
abbrev pub without_last : LaunchAction → LaunchAction
without_last (started bin args dir) = started bin (all_but_last args) dir
without_last (not_started bin args dir) = not_started bin (all_but_last args) dir
without_last a = a

-- A process is started with the token as its last argument, behind the flag.
abbrev pub Carries : Bytes → LaunchAction → Type 0
Carries token (started bin args dir) =
    (before : List Bytes) × (args ≡ before ++ codes "--token" ∷ token ∷ [])
Carries token (not_started bin args dir) =
    (before : List Bytes) × (args ≡ before ++ codes "--token" ∷ token ∷ [])
Carries token a = Unit {0}

abbrev pub seen : LaunchResult → LaunchResult
seen (r, actions) = (r, map without_last actions)

launch_plan-named :
    (cfg : Config) (path metrics : Bytes)
    → cfg.tunnel_token ≢ []
    → launch_plan cfg path metrics ≡ named_plan cfg path metrics
unfolding launch_plan
launch_plan-named cfg path metrics h = rw (bytes_eq_ne cfg.tunnel_token [] h) refl

module _ (sys : System) (cfg : Config) (bin dir : Bytes) where
  named_plan-Carries :
      (path metrics : Bytes) (w p s : Option Bytes)
      → sys.start_error ≡ s
      → let plan = named_plan cfg path metrics in
        All
          (Carries cfg.tunnel_token)
          (write_config path plan.config_file w (open_pipe sys bin dir metrics plan p)).1
  unfolding named_plan named_tunnel_config write_config open_pipe start_process
  named_plan-Carries path metrics (some e) p s h = (tt, tt)
  named_plan-Carries path metrics none (some e) s h = (tt, tt)
  named_plan-Carries path metrics none none (some e) h = rw h (
    tt,
    (tt, ((all_but_last (all_but_last (named_plan cfg path metrics).args), refl), (tt, (tt, tt)))),
  )
  named_plan-Carries path metrics none none none h =
      rw h (
        tt,
        (tt, ((all_but_last (all_but_last (named_plan cfg path metrics).args), refl), (tt, tt))),
      )

  launch_on-Carries :
      (port : Result Bytes ℤ)
      → cfg.tunnel_token ≢ []
      → All (Carries cfg.tunnel_token) (launch_on sys cfg bin dir port).1
  unfolding launch_on
  launch_on-Carries (err e) h = tt
  launch_on-Carries (ok port) h =
      rw (launch_plan-named cfg _ _ h)
        (named_plan-Carries _ _ sys.write_error sys.pipe_error _ refl)

module _ (sys : System) (cfg : Config) (bin dir token : Bytes) where
  other : Config
  other = record cfg { tunnel_token = token }

  seen-named_plan :
      (path metrics : Bytes) (w p s : Option Bytes)
      → sys.start_error ≡ s
      → let plan = named_plan cfg path metrics in
        let plan' = named_plan other path metrics in
        seen (write_config path plan.config_file w (open_pipe sys bin dir metrics plan p))
        ≡ seen (write_config path plan'.config_file w (open_pipe sys bin dir metrics plan' p))
  unfolding named_plan named_tunnel_config write_config open_pipe start_process other
  seen-named_plan path metrics (some e) p s h = refl
  seen-named_plan path metrics none (some e) s h = refl
  seen-named_plan path metrics none none (some e) h = rw h refl
  seen-named_plan path metrics none none none h = rw h refl

  launch_on-token :
      (port : Result Bytes ℤ)
      → cfg.tunnel_token ≢ []
      → token ≢ []
      → seen (launch_on sys cfg bin dir port) ≡ seen (launch_on sys other bin dir port)
  unfolding launch_on other
  launch_on-token (err e) h h' = refl
  launch_on-token (ok port) h h' =
      rw
        (
          launch_plan-named cfg _ _ h,
          launch_plan-named (record cfg { tunnel_token = token }) _ _ h',
        )
        (seen-named_plan _ _ sys.write_error sys.pipe_error _ refl)

-- The token of a named tunnel, one that is not empty, stands in the last argument of the process, and there alone: each process
-- that a launch starts, or fails to start, has it as its last argument behind --token, and with any
-- other that is not empty a launch returns the same, writes the same config.yml and asks the system for the same,
-- apart from that argument.
pub launch-token :
    (sys : System) (cfg : Config) (bin dir token : Bytes)
    → cfg.tunnel_token ≢ []
    → token ≢ []
    → All (Carries cfg.tunnel_token) (launch sys cfg bin dir).1
      × (seen (launch sys cfg bin dir)
          ≡ seen (launch sys (record cfg { tunnel_token = token }) bin dir))
unfolding launch
launch-token sys cfg bin dir token h h' = (
  launch_on-Carries sys cfg bin dir sys.free_port h,
  unfold other in launch_on-token sys cfg bin dir token sys.free_port h h',
)
