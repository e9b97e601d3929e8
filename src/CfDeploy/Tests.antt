-- ===== src/CfDeploy/Tests.antt =====
-- The theorems on the deployment, each at an account that holds tunnels and records in two lists.
use xray_vless_ws_go.Base.{
  ◌≡◌, refl, ap, sym, ◌∙◌, inl, inr, false, List, [], ◌∷◌, some, Bytes, codes, bytes_eq_refl,
  Result, ok,
}
use xray_vless_ws_go.Text.Decimal.{pos}
use xray_vless_ws_go.Config.{Config}
use xray_vless_ws_go.CfDeploy.{DeployError, Named, DnsRecord, Cloudflare}
use xray_vless_ws_go.CfDeploy.Tunnel.{find_named, route, ensure_tunnel, ensure_dns_route}
use xray_vless_ws_go.CfDeploy.Tunnel.Laws.{KeepsRecords, KeepsTunnels}

abbrev Account : Type 0
Account = List Named × List DnsRecord

abbrev named_itself : Bytes → Named
named_itself name = record { id = name; name = name }

abbrev api : Cloudflare Account
api = record {
  list_accounts = λ s. ok (named_itself (codes "a") ∷ []);
  list_namespaces = λ s account. ok [];
  create_namespace = λ s account title. (s, ok (named_itself title));
  upload_script = λ s account script source namespace. (s, ok tt);
  attach_domain = λ s account hostname script zone. (s, ok tt);
  list_tunnels = λ s account name. ok s.0;
  create_tunnel = λ s account name. ((named_itself name ∷ s.0, s.1), ok (named_itself name));
  tunnel_token = λ s account id. ok (codes "t");
  list_zones = λ s domain. ok (named_itself domain ∷ []);
  list_records = λ s zone hostname. ok s.1;
  create_record = λ s zone r. ((s.0, r ∷ s.1), ok tt);
  update_record = λ s zone id r. ((s.0, r ∷ s.1), ok tt);
}

abbrev nothing : Account
nothing = ([], [])

records_kept : KeepsRecords api
records_kept s s' zone r (inl h) = (r, s.1, ap (λ p. ok p.0.1) (sym h), refl, refl)
records_kept s s' zone r (inr (id, h)) = (r, s.1, ap (λ p. ok p.0.1) (sym h), refl, refl)

first_found :
    (name : Bytes) (ts : List Named) → find_named name (named_itself name ∷ ts) ≡ some name
unfolding find_named
first_found name ts = rw (bytes_eq_refl name) refl

same_tunnel : {t u : Named} → ◌≡◌ {A = Result DeployError Named} (ok t) (ok u) → t ≡ u
same_tunnel e = cc

tunnels_kept : KeepsTunnels api
tunnels_kept s s' account name t h = (
  s'.0,
  refl,
  ap (λ p. find_named name p.0.0) (sym h)
      ∙ first_found name s.0
      ∙ ap (λ (u : Named). some u.id) (same_tunnel (ap (λ p. p.1) h)),
)

abbrev routed : Account
routed = ([], route (codes "x.d") (codes "id") ∷ [])

routes : ensure_dns_route api nothing (codes "z") (codes "x.d") (codes "id") ≡ (routed, ok tt)
unfolding ensure_dns_route
routes = refl

abbrev with_tunnel : Account
with_tunnel = (named_itself (codes "n") ∷ [], [])

creates : ensure_tunnel api nothing (codes "a") (codes "n") ≡ (with_tunnel, ok (codes "n"))
unfolding ensure_tunnel
creates = refl

abbrev cfg : Config
cfg = record {
  raw_port = codes "80";
  ports = [];
  target_ip = codes "127.0.0.1";
  target_port = pos 80;
  xray_uuid = codes "u";
  raw_fake_sni = [];
  fake_sni = [];
  ws_path = codes "/t";
  ws_host = codes "x.d";
  transport = codes "websocket";
  xhttp_mode = codes "auto";
  webhook_url = [];
  tunnel_token = [];
  debug_mode = false;
  log_password = codes "p";
  cloudflare_api_token = codes "c";
  cloudflare_account_id = [];
  domain = codes "d";
  worker_password = codes "w";
}
