-- ===== src/CfDeploy/Ensure.antt =====
-- internal/cfdeploy/deploy.go and account.go. json.Marshal of a string, url.QueryEscape and the
-- embedded worker.js are arguments.
pub mod Laws
use xray_vless_ws_go.Base.{
  ℕ, zero, suc, ◌-◌, not, ◌||◌, List, [], ◌∷◌, ◌++◌, Option, none, some, Bytes, codes, bytes_eq,
  length, if◌then◌else◌, Result, ok, err,
}
use xray_vless_ws_go.Text.Search.{has_prefix, contains}
use xray_vless_ws_go.Config.{Config}
use xray_vless_ws_go.CfDeploy.{DeployError, no_accounts, no_marker, Named, Cloudflare}
use xray_vless_ws_go.CfDeploy.Tunnel.{
  script_name, worker_hostname, ensure_kv_namespace, ensure_named_tunnel,
}

abbrev pub kv_namespace_title : Bytes
kv_namespace_title = script_name ++ codes "-kv"

abbrev pub password_marker : Bytes
password_marker = codes "\"__WORKER_PASSWORD__\""

-- strings.ReplaceAll with a non-empty `old`; the number counts the bytes of an occurrence that are
-- still to be passed over.
unfoldable pub replace_from : Bytes → Bytes → ℕ → Bytes → Bytes
replace_from old new n [] = []
replace_from old new zero (c ∷ s) =
    let found = replace_from old new (length old - 1) s in
    let other = replace_from old new zero s in
    if has_prefix (c ∷ s) old then new ++ found else c ∷ other
replace_from old new (suc n) (c ∷ s) = replace_from old new n s

unfoldable pub first_account : Result DeployError (List Named) → Result DeployError Bytes
first_account (err e) = err e
first_account (ok []) = err no_accounts
first_account (ok (account ∷ accounts)) = ok account.id

-- What `Ensure` returns.
pub record Outcome : Type 0 where
  pub webhook_url : Bytes
  pub tunnel_token : Bytes
  pub error : Option DeployError

unfoldable pub fail : DeployError → Outcome
fail e = record { webhook_url = []; tunnel_token = []; error = some e }

unfoldable pub with_tunnel {ℓ} : {S : Type ℓ} → Bytes → S × Result DeployError Bytes → S × Outcome
with_tunnel url (s, ok token) =
    (s, record { webhook_url = url; tunnel_token = token; error = none })
with_tunnel url (s, err e) = (s, record { webhook_url = url; tunnel_token = []; error = some e })

module _ (marshal query_escape : Bytes → Bytes) (template : Bytes) {S : Type 0}
    (api : Cloudflare S) where
  unfoldable pub substitute_password : Bytes → Bytes → Result DeployError Bytes
  unfolding replace_from
  substitute_password tmpl password =
      if not (contains tmpl password_marker)
      then err no_marker
      else ok (replace_from password_marker (marshal password) zero tmpl)

  unfoldable pub resolve_account_id : S → Bytes → Result DeployError Bytes
  unfolding first_account
  resolve_account_id s override =
      if not (bytes_eq override []) then ok override else first_account (api.list_accounts s)

  unfoldable pub webhook_url : Config → Bytes
  unfolding worker_hostname
  webhook_url cfg =
      codes "https://"
      ++ (worker_hostname cfg.domain
          ++ (codes "/setapi?password=" ++ query_escape cfg.worker_password))

  unfoldable pub after_attach : Bytes → Config → S × Result DeployError (Unit {0}) → S × Outcome
  unfolding with_tunnel webhook_url ensure_named_tunnel fail
  after_attach account cfg (s, err e) = (s, fail e)
  after_attach account cfg (s, ok _) =
      with_tunnel (webhook_url cfg) (ensure_named_tunnel api s account cfg)

  unfoldable pub after_upload : Bytes → Config → S × Result DeployError (Unit {0}) → S × Outcome
  unfolding after_attach worker_hostname fail
  after_upload account cfg (s, err e) = (s, fail e)
  after_upload account cfg (s, ok _) =
      after_attach account cfg
        (api.attach_domain s account (worker_hostname cfg.domain) script_name cfg.domain)

  unfoldable pub after_render : S → Bytes → Config → Bytes → Result DeployError Bytes → S × Outcome
  unfolding after_upload fail
  after_render s account cfg namespace (err e) = (s, fail e)
  after_render s account cfg namespace (ok source) =
      after_upload account cfg (api.upload_script s account script_name source namespace)

  unfoldable pub after_namespace : Bytes → Config → S × Result DeployError Bytes → S × Outcome
  unfolding after_render substitute_password fail
  after_namespace account cfg (s, err e) = (s, fail e)
  after_namespace account cfg (s, ok namespace) =
      after_render s account cfg namespace (substitute_password template cfg.worker_password)

  unfoldable pub after_account : S → Config → Result DeployError Bytes → S × Outcome
  unfolding after_namespace ensure_kv_namespace fail
  after_account s cfg (err e) = (s, fail e)
  after_account s cfg (ok account) =
      after_namespace account cfg (ensure_kv_namespace api s account kv_namespace_title)

  unfoldable pub ensure : S → Config → S × Outcome
  unfolding after_account resolve_account_id
  ensure s cfg =
      if bytes_eq cfg.cloudflare_api_token [] || bytes_eq cfg.domain []
      then (s, record { webhook_url = []; tunnel_token = []; error = none })
      else after_account s cfg (resolve_account_id s cfg.cloudflare_account_id)
