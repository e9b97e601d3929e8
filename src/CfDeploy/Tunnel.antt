-- ===== src/CfDeploy/Tunnel.antt =====
-- internal/cfdeploy/tunnel.go and kv.go: what is found or made, and the guards of the named tunnel.
pub mod Laws
use xray_vless_ws_go.Base.{
  Bool, true, false, not, ◌&&◌, ◌||◌, List, [], ◌∷◌, ◌++◌, Option, none, some, Bytes, codes,
  bytes_eq, if◌then◌else◌, Result, ok, err,
}
use xray_vless_ws_go.Text.Search.{has_suffix}
use xray_vless_ws_go.Config.{Config}
use xray_vless_ws_go.CfDeploy.{DeployError, empty_token, no_zone, Named, DnsRecord, Cloudflare}

abbrev pub script_name : Bytes
script_name = codes "xray-vless-ws-bridge"

abbrev pub tunnel_name : Bytes
tunnel_name = script_name ++ codes "-tunnel"

unfoldable pub worker_hostname : Bytes → Bytes
worker_hostname domain = codes "vless." ++ domain

unfoldable pub find_named : Bytes → List Named → Option Bytes
find_named name [] = none
find_named name (t ∷ ts) =
    let rest = find_named name ts in if bytes_eq t.name name then some t.id else rest

unfoldable pub tunnel_target : Bytes → Bytes
tunnel_target tunnel_id = tunnel_id ++ codes ".cfargotunnel.com"

unfoldable pub route : Bytes → Bytes → DnsRecord
unfolding tunnel_target
route hostname tunnel_id = record {
  id = [];
  name = hostname;
  content = tunnel_target tunnel_id;
  proxied = true;
}

-- The id of what was created.
unfoldable pub created_id {ℓ} :
    {S : Type ℓ} → S × Result DeployError Named → S × Result DeployError Bytes
created_id (s, ok t) = (s, ok t.id)
created_id (s, err e) = (s, err e)

-- What both find-or-create functions do with the list, where `create` is the call that creates.
unfoldable pub find_or_create {ℓ} :
    {S : Type ℓ}
    → S
    → Bytes
    → Result DeployError (List Named)
    → S × Result DeployError Named
    → S × Result DeployError Bytes
unfolding find_named created_id
find_or_create s name (err e) create = (s, err e)
find_or_create s name (ok listed) create = elim (find_named name listed) [
  | some id ↦ (s, ok id)
  | none ↦ created_id create
]

module _ {S : Type 0} (api : Cloudflare S) where
  unfoldable pub ensure_tunnel : S → Bytes → Bytes → S × Result DeployError Bytes
  unfolding find_or_create
  ensure_tunnel s account name =
      find_or_create s name (api.list_tunnels s account name) (api.create_tunnel s account name)

  unfoldable pub ensure_kv_namespace : S → Bytes → Bytes → S × Result DeployError Bytes
  unfolding find_or_create
  ensure_kv_namespace s account title =
      find_or_create s title (api.list_namespaces s account) (api.create_namespace s account title)

  unfoldable pub check_token : Result DeployError Bytes → Result DeployError Bytes
  check_token (err e) = err e
  check_token (ok token) = if bytes_eq token [] then err empty_token else ok token

  unfoldable pub ensure_tunnel_token : S → Bytes → Bytes → Result DeployError Bytes
  unfolding check_token
  ensure_tunnel_token s account tunnel_id = check_token (api.tunnel_token s account tunnel_id)

  unfoldable pub first_zone : Bytes → Result DeployError (List Named) → Result DeployError Bytes
  first_zone domain (err e) = err e
  first_zone domain (ok []) = err (no_zone domain)
  first_zone domain (ok (zone ∷ zones)) = ok zone.id

  unfoldable pub resolve_zone_id : S → Bytes → Result DeployError Bytes
  unfolding first_zone
  resolve_zone_id s domain = first_zone domain (api.list_zones s domain)

  unfoldable pub route_records :
      S
      → Bytes
      → DnsRecord
      → Result DeployError (List DnsRecord)
      → S × Result DeployError (Unit {0})
  route_records s zone r (err e) = (s, err e)
  route_records s zone r (ok []) = api.create_record s zone r
  route_records s zone r (ok (existing ∷ records)) =
      if bytes_eq existing.content r.content && existing.proxied
      then (s, ok tt)
      else api.update_record s zone existing.id r

  unfoldable pub ensure_dns_route : S → Bytes → Bytes → Bytes → S × Result DeployError (Unit {0})
  unfolding route_records route
  ensure_dns_route s zone hostname tunnel_id =
      route_records s zone (route hostname tunnel_id) (api.list_records s zone hostname)

  unfoldable pub give_token :
      Bytes → S × Result DeployError (Unit {0}) → S × Result DeployError Bytes
  give_token token (s, ok _) = (s, ok token)
  give_token token (s, err e) = (s, err e)

  unfoldable pub after_zone :
      S → Config → Bytes → Bytes → Result DeployError Bytes → S × Result DeployError Bytes
  unfolding ensure_dns_route give_token
  after_zone s cfg tunnel_id token (err e) = (s, err e)
  after_zone s cfg tunnel_id token (ok zone) =
      give_token token (ensure_dns_route s zone cfg.ws_host tunnel_id)

  unfoldable pub after_token :
      S → Config → Bytes → Result DeployError Bytes → S × Result DeployError Bytes
  unfolding resolve_zone_id after_zone
  after_token s cfg tunnel_id (err e) = (s, err e)
  after_token s cfg tunnel_id (ok token) =
      after_zone s cfg tunnel_id token (resolve_zone_id s cfg.domain)

  unfoldable pub after_tunnel :
      Bytes → Config → S × Result DeployError Bytes → S × Result DeployError Bytes
  unfolding ensure_tunnel_token after_token
  after_tunnel account cfg (s, err e) = (s, err e)
  after_tunnel account cfg (s, ok tunnel_id) =
      after_token s cfg tunnel_id (ensure_tunnel_token s account tunnel_id)

  -- The guards that make it do nothing.
  unfoldable pub ensure_named_tunnel : S → Bytes → Config → S × Result DeployError Bytes
  unfolding worker_hostname ensure_tunnel after_tunnel
  ensure_named_tunnel s account cfg =
      if not (bytes_eq cfg.tunnel_token [])
        || bytes_eq cfg.ws_host []
        || bytes_eq cfg.ws_host (codes "trycloudflare.com")
      then (s, ok [])
      else if bytes_eq cfg.ws_host (worker_hostname cfg.domain)
      then (s, ok [])
      else if not (bytes_eq cfg.ws_host cfg.domain)
          && not (has_suffix cfg.ws_host (b'.' ∷ cfg.domain))
      then (s, ok [])
      else after_tunnel account cfg (ensure_tunnel s account tunnel_name)
