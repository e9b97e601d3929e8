-- ===== src/CfDeploy/Http/Deployment.antt =====
-- `Ensure` over HTTP keeps to the order of Http/Protocol.antt.
use xray_vless_ws_go.Base.{
  ◌≡◌, refl, subst, ◌⊎◌, inl, inr, true, ◌||◌, [], Bytes, bytes_eq, Bool-cases, Result, ok, err,
}
use xray_vless_ws_go.Config.{Config}
use xray_vless_ws_go.CfDeploy.{DeployError}
use xray_vless_ws_go.CfDeploy.Http.{
  Codec, Transport, create_namespace, upload_script, attach_domain, State, no_result, api,
}
use xray_vless_ws_go.CfDeploy.Http.Protocol.{
  Stage, start, prepared, uploaded, attached, is_attached, IsAttached, Next, Reaches, Ends,
  perform-Ends, find_or_create-Ends,
}
use xray_vless_ws_go.CfDeploy.Http.Route.{ensure_named_tunnel-Ends}
use xray_vless_ws_go.CfDeploy.Tunnel.{script_name, worker_hostname, ensure_kv_namespace}
use xray_vless_ws_go.CfDeploy.Ensure.{
  Outcome, fail, with_tunnel, kv_namespace_title, after_attach, after_upload, after_render,
  after_namespace, after_account, ensure,
}

-- The requests kept to the order in one account, and where a webhook is returned they uploaded the
-- Worker and attached it.
abbrev pub Deployed : Config → Bytes → {S : Type 0} → State S × Outcome → Type 0
Deployed cfg account (s, o) =
    (q : Stage) × Reaches cfg account s.1 q × ((o.webhook_url ≡ []) ⊎ (is_attached q ≡ true))

module _ {S : Type 0} (marshal query_escape : Bytes → Bytes) (template : Bytes) (c : Codec)
    (net : Transport S) (token : Bytes) (cfg : Config) where
  module _ (account : Bytes) where
    -- Before the Worker is attached any stage may be left by an error.
    abbrev Anywhere : Stage → Type 0
    Anywhere q = Unit

    abbrev Deploys : State S × Outcome → Type 0
    Deploys r = Deployed cfg account r

    with_tunnel-Deployed :
        (url : Bytes) (x : State S × Result DeployError Bytes)
        → Ends cfg account IsAttached IsAttached x
        → Deploys (with_tunnel url x)
    unfolding with_tunnel
    with_tunnel-Deployed url (s, ok t) (q, h, a) = (q, h, inr a)
    with_tunnel-Deployed url (s, err e) (q, h, a) = (q, h, inr a)

    after_attach-Deployed :
        (x : State S × Result DeployError (Unit {0}))
        → Ends cfg account (λ q. q ≡ attached) Anywhere x
        → Deploys (after_attach marshal query_escape template (api c net token) account cfg x)
    unfolding after_attach fail
    after_attach-Deployed (s, ok u) (q, h, e) = with_tunnel-Deployed _ _ (
        ensure_named_tunnel-Ends c net token cfg account s
          (subst (λ q. Reaches cfg account s.1 q) e h))
    after_attach-Deployed (s, err e) (q, h, any) = (q, h, inl refl)

    after_upload-Deployed :
        (x : State S × Result DeployError (Unit {0}))
        → Ends cfg account (λ q. q ≡ uploaded) Anywhere x
        → Deploys (after_upload marshal query_escape template (api c net token) account cfg x)
    unfolding after_upload fail api
    after_upload-Deployed (s, ok u) (q, h, e) = after_attach-Deployed _ (
        perform-Ends cfg account c net token (λ q. q ≡ attached) Anywhere no_result s
          (attach_domain account (worker_hostname cfg.domain) script_name cfg.domain) uploaded
          attached (subst (λ q. Reaches cfg account s.1 q) e h) (refl, refl, refl, refl, refl) refl
          tt tt)
    after_upload-Deployed (s, err e) (q, h, any) = (q, h, inl refl)

    -- Before the script is uploaded, with or without a new namespace.
    abbrev IsEarly : Stage → Type 0
    IsEarly q = (q ≡ start) ⊎ (q ≡ prepared)

    early-Next :
        (q : Stage) (source namespace : Bytes)
        → IsEarly q
        → Next cfg account q (upload_script account script_name source namespace) uploaded
    early-Next q source namespace (inl e) = rw e (refl, refl, refl)
    early-Next q source namespace (inr e) = rw e (refl, refl, refl)

    after_render-Deployed :
        (s : State S) (q : Stage) (namespace : Bytes) (source : Result DeployError Bytes)
        → Reaches cfg account s.1 q
        → IsEarly q
        → Deploys (
            after_render marshal query_escape template
              (api c net token)
              s
              account
              cfg
              namespace
              source)
    unfolding after_render fail api
    after_render-Deployed s q namespace (err e) h early = (q, h, inl refl)
    after_render-Deployed s q namespace (ok source) h early = after_upload-Deployed _ (
        perform-Ends cfg account c net token (λ q. q ≡ uploaded) Anywhere no_result s
          (upload_script account script_name source namespace) q uploaded h
          (early-Next q source namespace early) refl tt tt)

    after_namespace-Deployed :
        (x : State S × Result DeployError Bytes)
        → Ends cfg account IsEarly Anywhere x
        → Deploys (after_namespace marshal query_escape template (api c net token) account cfg x)
    unfolding after_namespace fail
    after_namespace-Deployed (s, ok namespace) (q, h, early) =
        after_render-Deployed s q namespace _ h early
    after_namespace-Deployed (s, err e) (q, h, any) = (q, h, inl refl)

    ensure_kv_namespace-Ends :
        (s : State S)
        → Reaches cfg account s.1 start
        → Ends cfg account IsEarly Anywhere
            (ensure_kv_namespace (api c net token) s account kv_namespace_title)
    unfolding ensure_kv_namespace api
    ensure_kv_namespace-Ends s h =
        find_or_create-Ends cfg account IsEarly Anywhere s kv_namespace_title start
          ((api c net token).list_namespaces s account)
          ((api c net token).create_namespace s account kv_namespace_title) h (inl refl) tt
          (perform-Ends cfg account c net token IsEarly Anywhere c.namespace s
            (create_namespace account kv_namespace_title) start prepared h (refl, refl) (inr refl)
            tt tt)

  after_account-Deployed :
      (s : S) (account : Result DeployError Bytes)
      → (a : Bytes) × Deployed cfg a
          (after_account marshal query_escape template (api c net token) (s, []) cfg account)
  unfolding after_account fail
  after_account-Deployed s (err e) = ([], (start, refl, inl refl))
  after_account-Deployed s (ok a) =
      (a, after_namespace-Deployed a _ (ensure_kv_namespace-Ends a (s, []) refl))

-- Whatever Cloudflare answers, the requests of a run that may change the account, each with whether it
-- succeeded, are in one account and in this order: at most one KV namespace, the script, its
-- hostname, at most one tunnel, and at most one proxied record of WS_HOST, with none behind a request
-- that failed; and a webhook is returned only where the script was uploaded and its hostname attached.
pub ensure-Deployed :
    {S : Type 0} (marshal query_escape : Bytes → Bytes) (template : Bytes) (c : Codec)
    (net : Transport S) (token : Bytes) (cfg : Config) (s : S)
    → (account : Bytes) × Deployed cfg account
        (ensure marshal query_escape template (api c net token) (s, []) cfg)
unfolding ensure
ensure-Deployed marshal query_escape template c net token cfg s =
    elim (Bool-cases (bytes_eq cfg.cloudflare_api_token [] || bytes_eq cfg.domain [])) [
      | inl off ↦ rw off ([], (start, refl, inl refl))
      | inr on ↦ rw on (after_account-Deployed marshal query_escape template c net token cfg s _)
    ]
