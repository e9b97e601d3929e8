-- ===== src/Main/Provisioning.antt =====
-- cmd/xrayws/main.go and internal/cfdeploy: what a run takes from Cloudflare into its configuration.
use xray_vless_ws_go.Base.{◌≡◌, ap, sym, ◌⊎◌, inl, inr, [], some, Bytes, bytes_eq, if◌then◌else◌}
use xray_vless_ws_go.Config.{Config}
use xray_vless_ws_go.CfDeploy.{DeployError, Cloudflare}
use xray_vless_ws_go.CfDeploy.Ensure.{Outcome, webhook_url, ensure}
use xray_vless_ws_go.CfDeploy.Ensure.Laws.{IsOutcome, ensure-IsOutcome}
use xray_vless_ws_go.Main.{provisioned}

module _ (marshal query_escape : Bytes → Bytes) (template : Bytes) {S : Type 0} (api : Cloudflare S)
    (cfg : Config) where
  -- The configuration behind the deployment: a token that was there is kept, and the webhook is the one
  -- of the Worker, or is kept for a reason: the deployment is off, or it failed.
  pub record IsProvisioned (o : Outcome) (c : Config) : Type 0 where
    pub token : (c.tunnel_token ≡ cfg.tunnel_token) ⊎ (cfg.tunnel_token ≡ [])
    pub webhook :
        (c.webhook_url ≡ webhook_url marshal query_escape template api cfg)
        ⊎ (c.webhook_url ≡ cfg.webhook_url)
          × ((cfg.cloudflare_api_token ≡ [])
              ⊎ (cfg.domain ≡ [])
              ⊎ ((e : DeployError) × (o.error ≡ some e)))

  override :
      {a b : Bytes} (old : Bytes)
      → a ≡ b
      → (if bytes_eq b [] then old else b) ≡ (if bytes_eq a [] then old else a)
  override old e = ap (λ x. if bytes_eq x [] then old else x) (sym e)

  IsOutcome-IsProvisioned :
      (o : Outcome)
      → IsOutcome marshal query_escape template api cfg o
      → IsProvisioned o (provisioned cfg o)
  unfolding provisioned webhook_url bytes_eq
  IsOutcome-IsProvisioned o h = record {
    token = elim h.token [ inl e ↦ inl (sym (override cfg.tunnel_token e)) | inr e ↦ inr e ];
    webhook = elim h.webhook [
      | inl e ↦ inl (sym (override cfg.webhook_url e))
      | inr (e, failed) ↦ inr (sym (override cfg.webhook_url e), inr (inr failed))
    ];
  }

  -- Whatever Cloudflare answers, a run goes on with the tunnel token of its configuration where there
  -- is one, and with the webhook of the Worker, or with its own where the deployment is off or failed.
  pub provisioned-IsProvisioned :
      (s : S)
      → let o = (ensure marshal query_escape template api s cfg).1 in
        IsProvisioned o (provisioned cfg o)
  unfolding provisioned bytes_eq
  provisioned-IsProvisioned s = elim (ensure-IsOutcome marshal query_escape template api cfg s) [
    | inr h ↦ IsOutcome-IsProvisioned (ensure marshal query_escape template api s cfg).1 h
    | inl (e, off) ↦ record {
      token = inl (ap (λ o. (provisioned cfg o).tunnel_token) e);
      webhook = inr (
        ap (λ o. (provisioned cfg o).webhook_url) e,
        elim off [ inl a ↦ inl a | inr d ↦ inr (inl d) ],
      );
    }
  ]
