-- ===== src/CfDeploy/Ensure/Laws.antt =====
-- What `Ensure` returns, on each of its paths.
use xray_vless_ws_go.Base.{
  ◌≡◌, refl, ap, ◌⊎◌, inl, inr, [], none, some, Bytes, bytes_eq, bytes_eq_sound, Bool-cases, Result,
  ok, err,
}
use xray_vless_ws_go.Config.{Config}
use xray_vless_ws_go.CfDeploy.{DeployError, Cloudflare}
use xray_vless_ws_go.CfDeploy.Tunnel.{ensure_named_tunnel}
use xray_vless_ws_go.CfDeploy.Tunnel.Laws.{ensure_named_tunnel-IsOurs}
use xray_vless_ws_go.CfDeploy.Ensure.{
  Outcome, fail, with_tunnel, resolve_account_id, webhook_url, after_attach, after_upload,
  after_render, after_namespace, after_account, ensure,
}

module _ (marshal query_escape : Bytes → Bytes) (template : Bytes) {S : Type 0} (api : Cloudflare S)
    (cfg : Config) where
  abbrev url : Bytes
  url = webhook_url marshal query_escape template api cfg

  -- The webhook is the one of the Worker, or there is none and an error tells why; and a token is only
  -- given to a configuration without one.
  pub record IsOutcome (o : Outcome) : Type 0 where
    pub webhook :
        (o.webhook_url ≡ url) ⊎ ((o.webhook_url ≡ []) × ((e : DeployError) × (o.error ≡ some e)))
    pub token : (o.tunnel_token ≡ []) ⊎ (cfg.tunnel_token ≡ [])

  fail-IsOutcome : (e : DeployError) → IsOutcome (fail e)
  unfolding fail
  fail-IsOutcome e = record { webhook = inr (refl, (e, refl)); token = inl refl }

  with_tunnel-IsOutcome :
      (r : S × Result DeployError Bytes)
      → (r.1 ≡ ok []) ⊎ (cfg.tunnel_token ≡ [])
      → IsOutcome (with_tunnel url r).1
  unfolding with_tunnel
  with_tunnel-IsOutcome (s, ok t) (inl e) = record { webhook = inl refl; token = inl (given e) }
    where
      given : {a b : Bytes} → ◌≡◌ {A = Result DeployError Bytes} (ok a) (ok b) → a ≡ b
      given e = cc
  with_tunnel-IsOutcome (s, ok t) (inr n) = record { webhook = inl refl; token = inr n }
  with_tunnel-IsOutcome (s, err e) h = record { webhook = inl refl; token = inl refl }

  after_attach-IsOutcome :
      (account : Bytes) (r : S × Result DeployError (Unit {0}))
      → IsOutcome (after_attach marshal query_escape template api account cfg r).1
  unfolding after_attach
  after_attach-IsOutcome account (s, err e) = fail-IsOutcome e
  after_attach-IsOutcome account (s, ok _) =
      with_tunnel-IsOutcome (ensure_named_tunnel api s account cfg)
        (elim (ensure_named_tunnel-IsOurs api s account cfg) [
          | inl e ↦ inl (ap (λ r. r.1) e)
          | inr ours ↦ inr ours.no_token
        ])

  after_upload-IsOutcome :
      (account : Bytes) (r : S × Result DeployError (Unit {0}))
      → IsOutcome (after_upload marshal query_escape template api account cfg r).1
  unfolding after_upload
  after_upload-IsOutcome account (s, err e) = fail-IsOutcome e
  after_upload-IsOutcome account (s, ok _) = after_attach-IsOutcome account _

  after_render-IsOutcome :
      (s : S) (account namespace : Bytes) (r : Result DeployError Bytes)
      → IsOutcome (after_render marshal query_escape template api s account cfg namespace r).1
  unfolding after_render
  after_render-IsOutcome s account namespace (err e) = fail-IsOutcome e
  after_render-IsOutcome s account namespace (ok source) = after_upload-IsOutcome account _

  after_namespace-IsOutcome :
      (account : Bytes) (r : S × Result DeployError Bytes)
      → IsOutcome (after_namespace marshal query_escape template api account cfg r).1
  unfolding after_namespace
  after_namespace-IsOutcome account (s, err e) = fail-IsOutcome e
  after_namespace-IsOutcome account (s, ok namespace) = after_render-IsOutcome s account namespace _

  after_account-IsOutcome :
      (s : S) (r : Result DeployError Bytes)
      → IsOutcome (after_account marshal query_escape template api s cfg r).1
  unfolding after_account
  after_account-IsOutcome s (err e) = fail-IsOutcome e
  after_account-IsOutcome s (ok account) = after_namespace-IsOutcome account _

  -- What Ensure returns is nothing where it is not configured, and else the webhook of the Worker or an
  -- error; a token is never given to a configuration that has one.
  pub ensure-IsOutcome :
      (s : S)
      → ((ensure marshal query_escape template api s cfg).1
            ≡ record { webhook_url = []; tunnel_token = []; error = none })
          × ((cfg.cloudflare_api_token ≡ []) ⊎ (cfg.domain ≡ []))
        ⊎ IsOutcome (ensure marshal query_escape template api s cfg).1
  unfolding ensure
  ensure-IsOutcome s = elim (Bool-cases (bytes_eq cfg.cloudflare_api_token [])) [
    | inl a ↦ inl (rw a refl, inl (bytes_eq_sound cfg.cloudflare_api_token [] a))
    | inr a ↦ elim (Bool-cases (bytes_eq cfg.domain [])) [
      | inl d ↦ inl (rw (a, d) refl, inr (bytes_eq_sound cfg.domain [] d))
      | inr d ↦ inr (
          rw (a, d)
            (after_account-IsOutcome s
              (resolve_account_id marshal query_escape template api s cfg.cloudflare_account_id)))
    ]
  ]
