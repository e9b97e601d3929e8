-- ===== src/CfDeploy/Tunnel/Laws.antt =====
-- When the tunnel is touched at all, and that a second run finds what the first one made.
use xray_vless_ws_go.Base.{
  ◌≡◌, refl, ap, ◌∙◌, subst, ◌⊎◌, inl, inr, true, false, ◌&&◌, List, [], ◌∷◌, some, arith, Bytes,
  bytes_eq, bytes_eq_sound, bytes_eq_refl, Bool-cases, Option-cases, Result, ok, err,
}
use xray_vless_ws_go.Text.Search.{has_suffix}
use xray_vless_ws_go.Config.{Config}
use xray_vless_ws_go.CfDeploy.{DeployError, Named, DnsRecord, Cloudflare}
use xray_vless_ws_go.CfDeploy.Tunnel.{
  worker_hostname, route, find_named, created_id, find_or_create, ensure_tunnel, route_records,
  ensure_dns_route, ensure_named_tunnel,
}

-- A configuration that asks for a tunnel of its own, under a name of the zone that is not the
-- Worker's.
pub record IsOurs (cfg : Config) : Type 0 where
  pub no_token : cfg.tunnel_token ≡ []
  pub not_worker : bytes_eq cfg.ws_host (worker_hostname cfg.domain) ≡ false
  pub in_zone : (cfg.ws_host ≡ cfg.domain) ⊎ (has_suffix cfg.ws_host (b'.' ∷ cfg.domain) ≡ true)

state_unique : {S R : Type 0} {s s' : S} {r r' : R} → ◌≡◌ {A = S × R} (s, r) (s', r') → s ≡ s'
state_unique e = ap (λ p. p.0) e

id_unique : {a b : Bytes} → ◌≡◌ {A = Result DeployError Bytes} (ok a) (ok b) → a ≡ b
id_unique e = cc

err_ne_ok : {e : DeployError} {a : Bytes} → ◌≡◌ {A = Result DeployError Bytes} (err e) (ok a) → ⊥
err_ne_ok q = cc

module _ {S : Type 0} (api : Cloudflare S) where
  -- The account stays as it is and no token is given, or the configuration has no token of its own
  -- and names a host of its zone that is not the Worker's.
  pub ensure_named_tunnel-IsOurs :
      (s : S) (account : Bytes) (cfg : Config)
      → (ensure_named_tunnel api s account cfg ≡ (s, ok [])) ⊎ IsOurs cfg
  unfolding ensure_named_tunnel
  ensure_named_tunnel-IsOurs s account cfg = elim (Bool-cases (bytes_eq cfg.tunnel_token [])) [
    | inr t ↦ inl (rw t refl)
    | inl t ↦ elim (Bool-cases (bytes_eq cfg.ws_host (worker_hostname cfg.domain))) [
      | inl w ↦ inl (ground arith)
      | inr w ↦ elim (Bool-cases (bytes_eq cfg.ws_host cfg.domain)) [
        | inl d ↦ inr (record {
          no_token = bytes_eq_sound cfg.tunnel_token [] t;
          not_worker = w;
          in_zone = inl (bytes_eq_sound cfg.ws_host cfg.domain d);
        })
        | inr d ↦ elim (Bool-cases (has_suffix cfg.ws_host (b'.' ∷ cfg.domain))) [
          | inl z ↦ inr (record {
            no_token = bytes_eq_sound cfg.tunnel_token [] t;
            not_worker = w;
            in_zone = inr z;
          })
          | inr z ↦ inl (ground arith)
        ]
      ]
    ]
  ]

  -- The API lists a record that it created or replaced first under its name.
  abbrev pub KeepsRecords : Type 0
  KeepsRecords =
      (s s' : S) (zone : Bytes) (r : DnsRecord)
      → (api.create_record s zone r ≡ (s', ok tt))
        ⊎ ((id : Bytes) × (api.update_record s zone id r ≡ (s', ok tt)))
      → (x : DnsRecord) × (xs : List DnsRecord) × (api.list_records s' zone r.name ≡ ok (x ∷ xs))
        × (x.content ≡ r.content)
        × (x.proxied ≡ r.proxied)

  route_records-listed :
      (s : S) (zone : Bytes) (r x : DnsRecord) (xs : List DnsRecord)
      (o : Result DeployError (List DnsRecord))
      → o ≡ ok (x ∷ xs)
      → x.content ≡ r.content
      → x.proxied ≡ true
      → route_records api s zone r o ≡ (s, ok tt)
  unfolding route_records
  route_records-listed s zone r x xs o e c p = rw (e, c, p, bytes_eq_refl r.content) refl

  route_records-twice :
      (keeps : KeepsRecords) (s s' : S) (zone : Bytes) (r : DnsRecord)
      (o : Result DeployError (List DnsRecord))
      → api.list_records s zone r.name ≡ o
      → r.proxied ≡ true
      → route_records api s zone r o ≡ (s', ok tt)
      → route_records api s' zone r (api.list_records s' zone r.name) ≡ (s', ok tt)
  unfolding route_records
  route_records-twice keeps s s' zone r (err e) l p h = cc
  route_records-twice keeps s s' zone r (ok []) l p h =
      let (x, xs, listed, c, q) = keeps s s' zone r (inl h) in
      route_records-listed s' zone r x xs _ listed c (q ∙ p)
  route_records-twice keeps s s' zone r (ok (x ∷ xs)) l p h =
      elim (Bool-cases (bytes_eq x.content r.content && x.proxied)) [
        | inl same ↦
            subst (λ u. route_records api u zone r (api.list_records u zone r.name) ≡ (u, ok tt))
              (state_unique (rw same at h)) (rw (l, same) refl)
        | inr stale ↦
            let (y, ys, listed, c, q) = keeps s s' zone r (inr (x.id, rw stale at h)) in
            route_records-listed s' zone r y ys _ listed c (q ∙ p)
      ]

  -- Where the API lists a record that it created or replaced as the first of its name, a DNS route
  -- that was ensured is left alone by a second run.
  ensure_dns_route-twice :
      (keeps : KeepsRecords) (s s' : S) (zone hostname tunnel_id : Bytes)
      → ensure_dns_route api s zone hostname tunnel_id ≡ (s', ok tt)
      → ensure_dns_route api s' zone hostname tunnel_id ≡ (s', ok tt)
  unfolding ensure_dns_route
  ensure_dns_route-twice keeps s s' zone hostname tunnel_id h =
      route_records-twice keeps s s' zone (route hostname tunnel_id)
        (api.list_records s zone hostname) refl refl h

  -- The API lists a tunnel that it created, as the first one of its name.
  abbrev pub KeepsTunnels : Type 0
  KeepsTunnels =
      (s s' : S) (account name : Bytes) (t : Named)
      → api.create_tunnel s account name ≡ (s', ok t)
      → (ts : List Named) × (api.list_tunnels s' account name ≡ ok ts)
        × (find_named name ts ≡ some t.id)

  find_or_create-found :
      (s : S) (name id : Bytes) (ts : List Named) (o : Result DeployError (List Named))
      (create : S × Result DeployError Named)
      → o ≡ ok ts
      → find_named name ts ≡ some id
      → find_or_create s name o create ≡ (s, ok id)
  unfolding find_or_create
  find_or_create-found s name id ts o create e f = rw (e, find_or_create, f) refl

  created_id-ok :
      (o : S × Result DeployError Named) (s' : S) (id : Bytes)
      → created_id o ≡ (s', ok id)
      → (t : Named) × (o ≡ (s', ok t)) × (t.id ≡ id)
  unfolding created_id
  created_id-ok (s, ok t) s' id h = (t, ap (λ p. (p.0, ok t)) h, id_unique (ap (λ p. p.1) h))
  created_id-ok (s, err e) s' id h = absurd (err_ne_ok (ap (λ p. p.1) h))

  ensure_tunnel-listed :
      (keeps : KeepsTunnels) (s s' : S) (account name id : Bytes)
      (o : Result DeployError (List Named))
      → api.list_tunnels s account name ≡ o
      → find_or_create s name o (api.create_tunnel s account name) ≡ (s', ok id)
      → (ts : List Named) × (api.list_tunnels s' account name ≡ ok ts)
        × (find_named name ts ≡ some id)
  unfolding find_or_create
  ensure_tunnel-listed keeps s s' account name id (err e) l h = absurd (err_ne_ok (ap (λ p. p.1) h))
  ensure_tunnel-listed keeps s s' account name id (ok ts) l h =
      elim (Option-cases (find_named name ts)) [
        | inl none_yet ↦
            let (t, made, same) =
              created_id-ok (api.create_tunnel s account name) s' id
                (rw (find_or_create, none_yet) at h) in
            let (us, listed, found) = keeps s s' account name t made in
            (us, listed, found ∙ ap some same)
        | inr (i, found) ↦
            let same = rw (find_or_create, found) at h in
            (
              ts,
              subst (λ u. api.list_tunnels u account name ≡ ok ts) (state_unique same) l,
              found ∙ ap some (id_unique (ap (λ p. p.1) same)),
            )
      ]

  -- Where the API lists a tunnel that it created as the first of its name, a second run finds the
  -- tunnel that the first one found or created, and creates none.
  ensure_tunnel-twice :
      (keeps : KeepsTunnels) (s s' : S) (account name id : Bytes)
      → ensure_tunnel api s account name ≡ (s', ok id)
      → ensure_tunnel api s' account name ≡ (s', ok id)
  unfolding ensure_tunnel
  ensure_tunnel-twice keeps s s' account name id h =
      let (ts, listed, found) =
        ensure_tunnel-listed keeps s s' account name id (api.list_tunnels s account name) refl h in
      find_or_create-found s' name id ts _ _ listed found
