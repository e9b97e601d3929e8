-- ===== src/LogServer/Status.antt =====
-- internal/logserver/status.go. Times are clock readings in nanoseconds. The counters are Go int64.
-- The floating-point quotient of `RecordTraffic` is an argument, `rate`: it takes the new total, the
-- last one and the interval in nanoseconds, which is positive where it is called.
pub mod Liveness
pub mod Traffic
use xray_vless_ws_go.Base.{
  ℕ, zero, suc, ◌+◌, ◌-◌, ◌/◌, ◌≡◌, refl, Bool, true, false, List, [], ◌∷◌, ◌++◌, Bytes, ltb, leb,
  if◌then◌else◌, length, drop,
}
use xray_vless_ws_go.Text.Decimal.{ℤ, pos}

abbrev pub max_history_samples : ℕ
max_history_samples = 150

abbrev pub liveness_failure_threshold : ℕ
liveness_failure_threshold = 2

pub record ThroughputSample : Type 0 where
  pub t : ℕ
  pub up_bps : ℤ
  pub down_bps : ℤ

pub record StatusStore : Type 0 where
  pub started_at : ℕ
  pub xray_up : Bool
  pub tunnel_ready : Bool
  pub ready_connections : ℤ
  pub hostname : Bytes
  pub last_sample_at : ℕ
  pub last_up_total : ℤ
  pub last_down_total : ℤ
  pub have_last_sample : Bool
  pub last_up_bps : ℤ
  pub last_down_bps : ℤ
  pub history : List ThroughputSample
  pub consecutive_probe_failures : ℕ

pub record StatsSnapshot : Type 0 where
  pub xray_up : Bool
  pub tunnel_ready : Bool
  pub ready_connections : ℤ
  pub hostname : Bytes
  pub uptime_sec : ℕ
  pub uplink_bps : ℤ
  pub downlink_bps : ℤ
  pub uplink_total : ℤ
  pub downlink_total : ℤ
  pub history : List ThroughputSample

unfoldable pub new_status_store : ℕ → StatusStore
new_status_store now = record {
  started_at = now;
  xray_up = false;
  tunnel_ready = false;
  ready_connections = pos 0;
  hostname = [];
  last_sample_at = 0;
  last_up_total = pos 0;
  last_down_total = pos 0;
  have_last_sample = false;
  last_up_bps = pos 0;
  last_down_bps = pos 0;
  history = [];
  consecutive_probe_failures = 0;
}

unfoldable pub set_xray_up : StatusStore → Bool → StatusStore
set_xray_up s up = record s { xray_up = up }

unfoldable pub record_liveness : StatusStore → Bool → StatusStore
record_liveness s true = record s { consecutive_probe_failures = 0; xray_up = true }
record_liveness s false =
    let failures = suc s.consecutive_probe_failures in
    record s {
      consecutive_probe_failures = failures;
      xray_up = if leb liveness_failure_threshold failures then false else s.xray_up;
    }

unfoldable pub set_tunnel_status : StatusStore → Bool → ℤ → StatusStore
set_tunnel_status s ready connections = record s {
  tunnel_ready = ready;
  ready_connections = connections;
}

unfoldable pub set_hostname : StatusStore → Bytes → StatusStore
set_hostname s hostname = record s { hostname = hostname }

unfoldable pub trim_history : List ThroughputSample → List ThroughputSample
trim_history history = if ltb max_history_samples (length history) then drop 1 history else history

module _ (rate : ℤ → ℤ → ℕ → ℤ) where
  -- The rate since the last sample: 0 for the first one, and where the clock did not advance.
  unfoldable pub bps_since : StatusStore → ℕ → ℤ → ℤ → ℤ
  bps_since s now total last =
      if s.have_last_sample
      then if ltb s.last_sample_at now then rate total last (now - s.last_sample_at) else pos 0
      else pos 0

  unfoldable pub record_traffic : StatusStore → ℕ → ℤ → ℤ → StatusStore
  unfolding bps_since trim_history
  record_traffic s now up_total down_total =
      let up_bps = bps_since s now up_total s.last_up_total in
      let down_bps = bps_since s now down_total s.last_down_total in
      let sample : ThroughputSample = record {
        t = now / 1000000000;
        up_bps = up_bps;
        down_bps = down_bps;
      } in
      record s {
        have_last_sample = true;
        last_sample_at = now;
        last_up_total = up_total;
        last_down_total = down_total;
        last_up_bps = up_bps;
        last_down_bps = down_bps;
        history = trim_history (s.history ++ sample ∷ []);
      }

unfoldable pub snapshot : StatusStore → ℕ → StatsSnapshot
snapshot s now = record {
  xray_up = s.xray_up;
  tunnel_ready = s.tunnel_ready;
  ready_connections = s.ready_connections;
  hostname = s.hostname;
  uptime_sec = (now - s.started_at) / 1000000000;
  uplink_bps = s.last_up_bps;
  downlink_bps = s.last_down_bps;
  uplink_total = s.last_up_total;
  downlink_total = s.last_down_total;
  history = s.history;
}
