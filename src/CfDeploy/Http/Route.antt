-- ===== src/CfDeploy/Http/Route.antt =====
-- The tunnel and its DNS record over HTTP keep to the order of Http/Protocol.antt.
use xray_vless_ws_go.Base.{
  ◌≡◌, refl, ◌⊎◌, inl, inr, true, not, ◌&&◌, ◌||◌, List, [], ◌∷◌, Bytes, codes, bytes_eq,
  Bool-cases, Result, ok, err,
}
use xray_vless_ws_go.Text.Search.{has_suffix}
use xray_vless_ws_go.Config.{Config}
use xray_vless_ws_go.CfDeploy.{DeployError, DnsRecord}
use xray_vless_ws_go.CfDeploy.Http.{
  Codec, Transport, create_tunnel, create_record, update_record, State, no_result, api,
}
use xray_vless_ws_go.CfDeploy.Http.Protocol.{
  Stage, attached, tunnelled, routed, IsAttached, Next, Reaches, Ends, perform-Ends,
  find_or_create-Ends,
}
use xray_vless_ws_go.CfDeploy.Tunnel.{
  tunnel_name, worker_hostname, route, ensure_tunnel, route_records, ensure_dns_route, give_token,
  after_zone, after_token, after_tunnel, ensure_named_tunnel,
}

module _ {S : Type 0} (c : Codec) (net : Transport S) (token : Bytes) (cfg : Config)
    (account : Bytes) where
  -- The Worker is attached, and its tunnel may have been created.
  abbrev IsReady : Stage → Type 0
  IsReady q = (q ≡ attached) ⊎ (q ≡ tunnelled)

  ready-IsAttached : (q : Stage) → IsReady q → IsAttached q
  ready-IsAttached q (inl e) = rw e refl
  ready-IsAttached q (inr e) = rw e refl

  ready-Next :
      (q : Stage) (zone : Bytes) (r : DnsRecord)
      → IsReady q
      → (r.name ≡ cfg.ws_host) × (r.proxied ≡ true)
      → Next cfg account q (create_record zone r) routed
        × ((id : Bytes) → Next cfg account q (update_record zone id r) routed)
  ready-Next q zone r (inl e) same = rw e ((refl, same.0, same.1), λ id. (refl, same.0, same.1))
  ready-Next q zone r (inr e) same = rw e ((refl, same.0, same.1), λ id. (refl, same.0, same.1))

  route_records-Ends :
      (s : State S) (q : Stage) (zone : Bytes) (r : DnsRecord)
      (listed : Result DeployError (List DnsRecord))
      → Reaches cfg account s.1 q
      → IsReady q
      → (r.name ≡ cfg.ws_host) × (r.proxied ≡ true)
      → Ends cfg account IsAttached IsAttached (route_records (api c net token) s zone r listed)
  unfolding route_records api
  route_records-Ends s q zone r (err e) h ready same = (q, h, ready-IsAttached q ready)
  route_records-Ends s q zone r (ok []) h ready same =
      perform-Ends cfg account c net token IsAttached IsAttached no_result s (create_record zone r)
        q routed h (ready-Next q zone r ready same).0 refl refl (ready-IsAttached q ready)
  route_records-Ends s q zone r (ok (existing ∷ records)) h ready same =
      elim (Bool-cases (bytes_eq existing.content r.content && existing.proxied)) [
        | inl e ↦ rw e (q, h, ready-IsAttached q ready)
        | inr e ↦ rw e (
            perform-Ends cfg account c net token IsAttached IsAttached no_result s
              (update_record zone existing.id r) q routed h
              ((ready-Next q zone r ready same).1 existing.id) refl refl (ready-IsAttached q ready))
      ]

  give_token-Ends :
      (t : Bytes) (x : State S × Result DeployError (Unit {0}))
      → Ends cfg account IsAttached IsAttached x
      → Ends cfg account IsAttached IsAttached (give_token (api c net token) t x)
  unfolding give_token
  give_token-Ends t (s, ok u) h = h
  give_token-Ends t (s, err e) h = h

  after_zone-Ends :
      (s : State S) (q : Stage) (id t : Bytes) (zone : Result DeployError Bytes)
      → Reaches cfg account s.1 q
      → IsReady q
      → Ends cfg account IsAttached IsAttached (after_zone (api c net token) s cfg id t zone)
  unfolding after_zone ensure_dns_route
  after_zone-Ends s q id t (err e) h ready = (q, h, ready-IsAttached q ready)
  after_zone-Ends s q id t (ok zone) h ready =
      give_token-Ends t _ (
        route_records-Ends s q zone (route cfg.ws_host id) _ h ready (unfold route in (refl, refl)))

  after_token-Ends :
      (s : State S) (q : Stage) (id : Bytes) (t : Result DeployError Bytes)
      → Reaches cfg account s.1 q
      → IsReady q
      → Ends cfg account IsAttached IsAttached (after_token (api c net token) s cfg id t)
  unfolding after_token
  after_token-Ends s q id (err e) h ready = (q, h, ready-IsAttached q ready)
  after_token-Ends s q id (ok t) h ready = after_zone-Ends s q id t _ h ready

  after_tunnel-Ends :
      (x : State S × Result DeployError Bytes)
      → Ends cfg account IsReady IsAttached x
      → Ends cfg account IsAttached IsAttached (after_tunnel (api c net token) account cfg x)
  unfolding after_tunnel
  after_tunnel-Ends (s, ok id) (q, h, ready) = after_token-Ends s q id _ h ready
  after_tunnel-Ends (s, err e) h = h

  ensure_tunnel-Ends :
      (s : State S)
      → Reaches cfg account s.1 attached
      → Ends cfg account IsReady IsAttached (ensure_tunnel (api c net token) s account tunnel_name)
  unfolding ensure_tunnel api
  ensure_tunnel-Ends s h =
      find_or_create-Ends cfg account IsReady IsAttached s tunnel_name attached
        ((api c net token).list_tunnels s account tunnel_name)
        ((api c net token).create_tunnel s account tunnel_name) h (inl refl) refl
        (perform-Ends cfg account c net token IsReady IsAttached c.named s
          (create_tunnel account tunnel_name) attached tunnelled h (refl, refl, refl) (inr refl)
          refl refl)

  pub ensure_named_tunnel-Ends :
      (s : State S)
      → Reaches cfg account s.1 attached
      → Ends cfg account IsAttached IsAttached (ensure_named_tunnel (api c net token) s account cfg)
  unfolding ensure_named_tunnel
  ensure_named_tunnel-Ends s h =
      elim (Bool-cases (
        not (bytes_eq cfg.tunnel_token [])
        || bytes_eq cfg.ws_host []
        || bytes_eq cfg.ws_host (codes "trycloudflare.com"))) [
          | inl off ↦ rw off (attached, h, refl)
          | inr on ↦ rw on (elim (Bool-cases (bytes_eq cfg.ws_host (worker_hostname cfg.domain))) [
            | inl same ↦ rw same (attached, h, refl)
            | inr other ↦
                rw other
                  (elim (Bool-cases (
                    not (bytes_eq cfg.ws_host cfg.domain)
                    && not (has_suffix cfg.ws_host (b'.' ∷ cfg.domain)))) [
                      | inl outside ↦ rw outside (attached, h, refl)
                      | inr inside ↦ rw inside (after_tunnel-Ends _ (ensure_tunnel-Ends s h))
                    ])
          ])
        ]
