-- ===== src/SmokeTest/Run/Laws.antt =====
-- What a run of the smoke test leaves open, wherever it ends.
use xray_vless_ws_go.Base.{
  ◌≡◌, refl, ◌⊎◌, inl, inr, Bool, true, false, List, [], ◌∷◌, Option, none, some, Bytes, codes,
  Result, ok, err,
}
use xray_vless_ws_go.Base.Script.{◌>>◌, Leaves, Triple, Triple-bind, Triple-weaken, Triple-finally}
use xray_vless_ws_go.SmokeTest.Run.{
  echo, reserved_port, ws_engine, released_port, xhttp_engine, ws_conn, tcp_conn, answer_body,
  SmokeAction, opened, closed, SmokeError, starting_echo, reserving_port, starting, dialing,
  closing, port_not_released, not_accepting, SmokeAnswers, Smoke, smoke_config, get_answer,
  probe_xhttp, run_xhttp, run_conn, run_ws, run_echo, run,
}
use xray_vless_ws_go.SmokeTest.Run.Open.{
  Held, nothing, held, Exclusive, At, apply-At, Triple-log, Triple-check, Triple-fail_in,
  Triple-config_bytes, Triple-exchange,
}

infixl 5 ◌▷◌
◌▷◌ :
    {A B : Type 0} {P Q Q' R : List SmokeAction → Type 0} {m : Smoke A} {k : Smoke B}
    → Triple P Q R m
    → Triple Q Q' R k
    → Triple P Q' R (m >> k)
h ▷ k = Triple-bind h (λ a. k)

-- What is open in the parts of a run.
abbrev in_echo : Held
in_echo = record nothing { has_echo = true }

abbrev in_engine : Held
in_engine = record in_echo { has_ws = true }

abbrev in_conn : Held
in_conn = record in_engine { has_conn = true }

abbrev behind_engine : Held
behind_engine = record in_echo { has_conn = true }

abbrev in_xhttp : Held
in_xhttp = record behind_engine { has_xhttp = true }

module _ (a : SmokeAnswers) where
  Triple-get_answer :
      (b : Bool) → Triple (At in_xhttp) (At in_xhttp) (At behind_engine) (get_answer b)
  Triple-get_answer true =
      Triple-log (opened answer_body) in_xhttp refl ▷ Triple-log (closed answer_body) _ refl
  Triple-get_answer false = record { at = λ w p. p }

  Triple-probe_xhttp :
      (o : Option Bytes)
      → Triple (At in_xhttp) (At behind_engine) (At behind_engine) (probe_xhttp a o)
  unfolding probe_xhttp
  Triple-probe_xhttp (some e) =
      Triple-log (closed xhttp_engine) in_xhttp refl ▷ Triple-fail_in (not_accepting e) (λ w p. p)
  Triple-probe_xhttp none =
      Triple-log (opened tcp_conn) in_xhttp refl
      ▷ Triple-log (closed tcp_conn) (record in_xhttp { has_tcp = true }) refl
      ▷ Triple-get_answer a.gets
      ▷ Triple-log (closed xhttp_engine) in_xhttp refl
      ▷ Triple-check a.close_xhttp closing (λ w p. p)

  Triple-run_xhttp : Triple (At behind_engine) (At behind_engine) (At behind_engine) (run_xhttp a)
  unfolding run_xhttp
  Triple-run_xhttp =
      Triple-bind (Triple-config_bytes a (λ w p. p) (smoke_config a (codes "xhttp") (codes "auto")))
        (λ bytes.
          Triple-check (a.start_xhttp bytes) starting (λ w p. p)
          ▷ Triple-log (opened xhttp_engine) behind_engine refl
          ▷ Triple-probe_xhttp a.dial_tcp)

  -- An error may come before the engine is closed, or behind it.
  abbrev IsLeft : List SmokeAction → Type 0
  IsLeft w = At in_conn w ⊎ At behind_engine w

  Triple-run_conn : Triple (At in_conn) (At behind_engine) IsLeft (run_conn a)
  unfolding run_conn
  Triple-run_conn =
      Triple-exchange a (λ w p. inl p)
      ▷ Triple-log (closed ws_engine) in_conn refl
      ▷ Triple-check a.close closing (λ w p. inr p)
      ▷ Triple-check a.listen_again port_not_released (λ w p. inr p)
      ▷ Triple-log (opened released_port) behind_engine refl
      ▷ Triple-log (closed released_port) (record behind_engine { has_released = true }) refl
      ▷ Triple-weaken Triple-run_xhttp (λ w p. p) (λ w p. inr p)

  Triple-run_ws : Triple (At in_engine) (At in_echo) (λ w. At in_engine w ⊎ At in_echo w) (run_ws a)
  unfolding run_ws
  Triple-run_ws =
      Triple-check a.dial dialing (λ w p. inl p)
      ▷ Triple-log (opened ws_conn) in_engine refl
      ▷ Triple-finally (λ w. closed ws_conn ∷ w) Triple-run_conn
          (λ w p. apply-At (closed ws_conn) behind_engine w refl p)
          (λ w p. elim p [
            | inl q ↦ inl (apply-At (closed ws_conn) in_conn w refl q)
            | inr q ↦ inr (apply-At (closed ws_conn) behind_engine w refl q)
          ])

  Triple-run_echo : Triple (At in_echo) (At in_echo) (At in_echo) (run_echo a)
  unfolding run_echo
  Triple-run_echo =
      Triple-bind
        (Triple-check a.reserve reserving_port (λ w p. p)
          ▷ Triple-log (opened reserved_port) in_echo refl
          ▷ Triple-log (closed reserved_port) (record in_echo { has_reserved = true }) refl
          ▷ Triple-config_bytes a (λ w p. p) (smoke_config a [] []))
        (λ bytes.
          Triple-check (a.start bytes) starting (λ w p. p)
          ▷ Triple-log (opened ws_engine) in_echo refl
          ▷ Triple-finally (λ w. closed ws_engine ∷ w) Triple-run_ws
              (λ w p. apply-At (closed ws_engine) in_echo w refl p)
              (λ w p. elim p [
                | inl q ↦ apply-At (closed ws_engine) in_engine w refl q
                | inr q ↦ apply-At (closed ws_engine) in_echo w refl q
              ]))

  Triple-run : Triple (At nothing) (At nothing) (At nothing) (run a)
  unfolding run
  Triple-run =
      Triple-check a.listen_echo starting_echo (λ w p. p)
      ▷ Triple-log (opened echo) nothing refl
      ▷ Triple-finally (λ w. closed echo ∷ w) Triple-run_echo
          (λ w p. apply-At (closed echo) in_echo w refl p)
          (λ w p. apply-At (closed echo) in_echo w refl p)

  left_open :
      (x : Result SmokeError Unit × List SmokeAction)
      → Leaves (At nothing) (At nothing) x
      → At nothing x.1
  left_open (ok u, w) h = h
  left_open (err e, w) h = h

-- Whatever the network and the core answer, and wherever the run ends, nothing that it opened is left
-- open; and at no time do two of the listeners that share xray-core's port stand open together, so
-- the second engine starts only behind the end of the first.
pub run-Exclusive :
    (a : SmokeAnswers) → let actions = (run a []).1 in (held actions ≡ nothing) × Exclusive actions
run-Exclusive a = left_open a (run a []) ((Triple-run a).at [] (refl, tt))
