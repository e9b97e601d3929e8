-- ===== src/LogServer/Status/Traffic.antt =====
-- The traffic samples: the rates between two samples, and the bound on the history.
use Prim.Native.Nat.{min}
use xray_vless_ws_go.Base.{
  ℕ, suc, ◌+◌, ◌-◌, ◌/◌, ◌≤◌, ◌<◌, ◌≡◌, refl, ap, ◌∙◌, false, List, [], ◌∷◌, ◌++◌, arith, ltb,
  tests, length, length-append, length-drop, inl, inr, Bool-cases,
}
use xray_vless_ws_go.Text.Decimal.{ℤ, pos}
use xray_vless_ws_go.LogServer.Status.{
  StatusStore, ThroughputSample, max_history_samples, new_status_store, trim_history, bps_since,
  record_traffic,
}

module _ (rate : ℤ → ℤ → ℕ → ℤ) where
  -- The first sample reports 0, not a spike.
  record_traffic_first :
      (s : StatusStore) (now : ℕ) (up down : ℤ)
      → s.have_last_sample ≡ false
      → let s' = record_traffic rate s now up down in
        (s'.last_up_bps ≡ pos 0) × (s'.last_down_bps ≡ pos 0)
  unfolding record_traffic
  record_traffic_first s now up down h = ground arith

  -- Two samples in turn, with the clock advancing: the rates are those of the differences between
  -- the two, whatever the store held before, and the totals are the last ones.
  record_traffic_twice :
      (s : StatusStore) (t₁ t₂ : ℕ) (up₁ down₁ up₂ down₂ : ℤ)
      → t₁ < t₂
      → let s' = record_traffic rate (record_traffic rate s t₁ up₁ down₁) t₂ up₂ down₂ in
        (s'.last_up_bps ≡ rate up₂ up₁ (t₂ - t₁))
        × (s'.last_down_bps ≡ rate down₂ down₁ (t₂ - t₁))
        × (s'.last_up_total ≡ up₂)
        × (s'.last_down_total ≡ down₂)
  unfolding record_traffic
  record_traffic_twice s t₁ t₂ up₁ down₁ up₂ down₂ h = ground arith

  pub samples : StatusStore → List (ℕ × ℤ × ℤ) → StatusStore
  samples s [] = s
  samples s ((now, up, down) ∷ rest) = samples (record_traffic rate s now up down) rest

  length-trim_history :
      (xs : List ThroughputSample)
      → length xs ≤ 151
      → length (trim_history xs) ≡ min (length xs) 150
  unfolding trim_history
  length-trim_history xs h = elim (Bool-cases (ltb max_history_samples (length xs))) [
    | inl e ↦ rw e (omega (tests, length-drop 1 xs, e))
    | inr e ↦ rw e (ground (arith, e))
  ]

  length-record_traffic :
      (s : StatusStore) (now : ℕ) (up down : ℤ)
      → length s.history ≤ 150
      → length (record_traffic rate s now up down).history ≡ min (suc (length s.history)) 150
  unfolding record_traffic
  length-record_traffic s now up down h =
      let longer : length (s.history ++ sample ∷ []) ≡ suc (length s.history) =
        omega (arith, length-append s.history (sample ∷ [])) in
      length-trim_history (s.history ++ sample ∷ []) (omega (arith, longer))
      ∙ ap (λ (n : ℕ). min n 150) longer
    where
      sample : ThroughputSample
      sample = record {
        t = now / 1000000000;
        up_bps = bps_since rate s now up s.last_up_total;
        down_bps = bps_since rate s now down s.last_down_total;
      }

  length-samples :
      (s : StatusStore) (n : ℕ) (calls : List (ℕ × ℤ × ℤ))
      → length s.history ≡ min n 150
      → length (samples s calls).history ≡ min (n + length calls) 150
  unfolding samples
  length-samples s n [] h = omega (arith, h)
  length-samples s n ((now, up, down) ∷ rest) h = omega (
    arith,
    length-samples (record_traffic rate s now up down) (suc n) rest
        (omega (arith, h, length-record_traffic s now up down (omega (arith, h)))),
  )

  -- After n samples the history holds n of them, and never more than 150.
  length-samples_new :
      (now : ℕ) (calls : List (ℕ × ℤ × ℤ))
      → length (samples (new_status_store now) calls).history ≡ min (length calls) 150
  length-samples_new now calls =
      omega (arith, length-samples (new_status_store now) 0 calls (unfold new_status_store in refl))
