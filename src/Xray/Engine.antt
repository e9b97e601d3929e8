-- ===== src/Xray/Engine.antt =====
-- internal/xraycore/engine.go and health.go. xray-core is an argument, with an operation for each call
-- on a state of its own. An instance's Close is taken not to panic: the source does not recover there.
pub mod Laws
use xray_vless_ws_go.Base.{
  Bool, true, false, List, [], ◌∷◌, ◌++◌, Option, none, some, Bytes, codes, concat, Result, ok, err,
  if◌then◌else◌,
}
use xray_vless_ws_go.Text.Decimal.{ℤ, pos}
use xray_vless_ws_go.Xray.BuildConfig.{stats_email}

-- A call that returns, or panics with a value of this text.
pub data Call (A : Type 0) : Type 0 where
  returned : A → Call A
  panicked : Bytes → Call A

pub record Core (S I M C : Type 0) : Type 0 where
  pub register_handler : S → S
  -- `core.StartInstance("json", …)`.
  pub start_instance : Bytes → S → Call (Result Bytes I) × S
  -- `GetFeature(stats.ManagerType())`, and its assertion to a manager.
  pub stats_manager : I → S → Call (Option M) × S
  pub get_or_register_counter : M → Bytes → S → Call (Result Bytes C) × S
  pub value : C → S → ℤ
  pub close_instance : I → S → Option Bytes × S

-- `logHandler.Handle`, of a message in its text: what the sink leaves, its panic included, where there
-- is a sink.
unfoldable pub handle :
    {S : Type 0} → Option (Bytes → S → Call (Unit {0}) × S) → (msg : Bytes) → S → S
handle none msg s = s
handle (some sink) msg s = (sink msg s).1

-- xraycore.Engine; `closed` is the state of `closeOnce`.
pub record Engine (I C : Type 0) : Type 0 where
  pub core_instance : Option I
  pub up_counter : Option C
  pub down_counter : Option C
  pub closed : Bool
  pub close_err : Option Bytes

abbrev uplink : Bytes
uplink = concat (codes "user>>>" ∷ stats_email ∷ codes ">>>traffic>>>uplink" ∷ [])

abbrev downlink : Bytes
downlink = concat (codes "user>>>" ∷ stats_email ∷ codes ">>>traffic>>>downlink" ∷ [])

abbrev both : {C : Type 0} → Result Bytes C → Result Bytes C → Option (C × C)
both (ok up) (ok down) = some (up, down)
both (ok up) (err e) = none
both (err e) r = none

module _ {S I M C : Type 0} (core : Core S I M C) where
  -- The registration of both counters: nothing where there is no manager, or one of them fails.
  unfoldable pub counters : I → S → Call (Option (C × C)) × S
  counters i s =
      let (manager, s₁) = core.stats_manager i s in
      elim manager [
        | panicked t ↦ (panicked t, s₁)
        | returned none ↦ (returned none, s₁)
        | returned (some mgr) ↦
            let (up, s₂) = core.get_or_register_counter mgr uplink s₁ in
            elim up [
              | panicked t ↦ (panicked t, s₂)
              | returned up_result ↦
                  let (down, s₃) = core.get_or_register_counter mgr downlink s₂ in
                  elim down [
                    | panicked t ↦ (panicked t, s₃)
                    | returned down_result ↦ (returned (both up_result down_result), s₃)
                  ]
            ]
      ]

  abbrev pub bare : I → Engine I C
  bare i = record {
    core_instance = some i;
    up_counter = none;
    down_counter = none;
    closed = false;
    close_err = none;
  }

  abbrev panic_error : Bytes → Bytes
  panic_error t = codes "xraycore: panic starting instance: " ++ t

  -- `New`: the engine, nil or not, and the error. A panic is recovered, and the engine that was
  -- assigned until then is returned with the error.
  unfoldable pub with_counters :
      I → Call (Option (C × C)) × S → (Option (Engine I C) × Option Bytes) × S
  with_counters i (panicked t, s) = ((some (bare i), some (panic_error t)), s)
  with_counters i (returned none, s) = ((some (bare i), none), s)
  with_counters i (returned (some (up, down)), s) =
      ((some (record (bare i) { up_counter = some up; down_counter = some down }), none), s)

  unfoldable pub started : Call (Result Bytes I) × S → (Option (Engine I C) × Option Bytes) × S
  unfolding counters with_counters
  started (panicked t, s) = ((none, some (panic_error t)), s)
  started (returned (err e), s) = ((none, some (codes "xraycore: StartInstance: " ++ e)), s)
  started (returned (ok i), s) = with_counters i (counters i s)

  unfoldable pub new : Bytes → (has_sink : Bool) → S → (Option (Engine I C) × Option Bytes) × S
  unfolding started
  new cfg_bytes has_sink s =
      started (core.start_instance cfg_bytes (if has_sink then core.register_handler s else s))

  -- `Traffic`: uplink, downlink, and whether the counters are there.
  unfoldable pub traffic : Option (Engine I C) → S → ℤ × ℤ × Bool
  traffic none s = (pos 0, pos 0, false)
  traffic (some e) s = elim e.up_counter [
    | none ↦ (pos 0, pos 0, false)
    | some up ↦ elim e.down_counter [
      | none ↦ (pos 0, pos 0, false)
      | some down ↦ (core.value up s, core.value down s, true)
    ]
  ]

  -- `Close`; the once runs its body the first time.
  unfoldable pub close_once : I → Engine I C → S → Engine I C × S
  close_once i e s =
      let (failure, s₁) = core.close_instance i s in
      let next : Engine I C × S = (
        record e {
          closed = true;
          close_err = elim failure [
            | none ↦ e.close_err
            | some t ↦ some (codes "xraycore: Close: " ++ t)
          ];
        },
        s₁,
      ) in
      if e.closed then (e, s) else next

  unfoldable pub close_with : Option I → Engine I C → S → Option Bytes × Option (Engine I C) × S
  unfolding close_once
  close_with none e s = (none, some e, s)
  close_with (some i) e s = let (e₁, s₁) = close_once i e s in (e₁.close_err, some e₁, s₁)

  unfoldable pub close : Option (Engine I C) → S → Option Bytes × Option (Engine I C) × S
  unfolding close_with
  close none s = (none, none, s)
  close (some e) s = close_with e.core_instance e s

-- `Start`.
unfoldable pub start : {I C : Type 0} → Option (Engine I C) → Option Bytes
start none = some (codes "xraycore: engine not initialized")
start (some e) = elim e.core_instance [
  | none ↦ some (codes "xraycore: engine not initialized")
  | some i ↦ none
]

-- `DumpConfig`: what it writes; a failure is only printed.
unfoldable pub dump_config : Bytes → Bytes → (debug_mode : Bool) → Option (Bytes × Bytes)
dump_config path cfg_bytes debug_mode = if debug_mode then some (path, cfg_bytes) else none

-- `ProbeListener`, by the error of the dial.
unfoldable pub probe_listener : Option Bytes → Bool
probe_listener none = true
probe_listener (some e) = false
