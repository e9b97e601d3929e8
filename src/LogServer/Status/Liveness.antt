-- ===== src/LogServer/Status/Liveness.antt =====
-- The debounce of the liveness probe over whole sequences of probes.
use xray_vless_ws_go.Base.{
  ℕ, zero, suc, ◌+◌, ◌≡◌, refl, ap, ◌∙◌, Bool, true, false, List, [], ◌∷◌, ◌++◌, arith, ltb,
}
use xray_vless_ws_go.LogServer.Status.{StatusStore, record_liveness}

pub probes : StatusStore → List Bool → StatusStore
probes s [] = s
probes s (outcome ∷ outcomes) = probes (record_liveness s outcome) outcomes

-- `k` failed probes in a row.
abbrev pub failures : ℕ → List Bool
failures zero = []
failures (suc k) = false ∷ failures k

probes-append :
    (s : StatusStore) (as' bs : List Bool) → probes s (as' ++ bs) ≡ probes (probes s as') bs
unfolding probes
probes-append s [] bs = refl
probes-append s (a ∷ as') bs = probes-append (record_liveness s a) as' bs

-- A store whose flag agrees with its count of failures.
abbrev Agrees : StatusStore → ℕ → Type 0
Agrees s n = (s.consecutive_probe_failures ≡ n) × (s.xray_up ≡ ltb n 2)

record_liveness-Agrees :
    (s : StatusStore) (n : ℕ) → Agrees s n → Agrees (record_liveness s false) (suc n)
unfolding record_liveness
record_liveness-Agrees s n h = ground arith

probes-failures : (s : StatusStore) (n k : ℕ) → Agrees s n → Agrees (probes s (failures k)) (n + k)
unfolding probes
probes-failures s n zero h = ground (arith, h)
probes-failures s n (suc k) h =
    ground
      (arith, probes-failures (record_liveness s false) (suc n) k (record_liveness-Agrees s n h))

-- After a successful probe and `k` failed ones, whatever came before, xray counts as up exactly
-- while k < 2: one failure alone does not flip it, and two in a row do.
probes-xray_up :
    (s : StatusStore) (before : List Bool) (k : ℕ)
    → (probes s (before ++ true ∷ failures k)).xray_up ≡ ltb k 2
unfolding probes
probes-xray_up s before k =
    ap (λ r. r.xray_up) (probes-append s before (true ∷ failures k))
    ∙ (probes-failures (record_liveness (probes s before) true) 0 k success).1
    ∙ ap (λ (n : ℕ). ltb n 2) {x = 0 + k} (omega arith)
  where
    success : Agrees (record_liveness (probes s before) true) 0
    success = unfold record_liveness in (refl, refl)
