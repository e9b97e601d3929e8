-- ===== src/CfDeploy/Http/Protocol.antt =====
-- The order of the requests with which internal/cfdeploy changes an account, and what they say.
use xray_vless_ws_go.Base.{
  ◌≡◌, refl, Bool, true, false, List, [], ◌∷◌, Option, none, some, Bytes, Result, ok, err,
}
use xray_vless_ws_go.Config.{Config}
use xray_vless_ws_go.CfDeploy.{DeployError, not_parsed, Named}
use xray_vless_ws_go.CfDeploy.Http.{
  Codec, Transport, AccountCall, create_namespace, upload_script, attach_domain, create_tunnel,
  create_record, update_record, State, succeeded, decoded, request_of, perform,
}
use xray_vless_ws_go.CfDeploy.Tunnel.{
  script_name, tunnel_name, worker_hostname, find_named, created_id, find_or_create,
}

-- How far a deployment is. A request that fails breaks it off.
pub data Stage : Type 0 where
  start prepared uploaded attached tunnelled routed : Stage
  broken : Stage → Stage

-- The script is uploaded and its hostname attached to it.
abbrev pub is_attached : Stage → Bool
is_attached start = false
is_attached prepared = false
is_attached uploaded = false
is_attached attached = true
is_attached tunnelled = true
is_attached routed = true
is_attached (broken p) = is_attached p

abbrev pub IsAttached : Stage → Type 0
IsAttached q = is_attached q ≡ true

module _ (cfg : Config) (account : Bytes) where
  -- What may be asked for at a stage, and where a success leads: all in one account, the Worker under
  -- its own hostname, and a proxied record of WS_HOST.
  abbrev pub Next : Stage → AccountCall → Stage → Type 0
  Next start (create_namespace a title) q = (q ≡ prepared) × (a ≡ account)
  Next start (upload_script a script source namespace) q =
      (q ≡ uploaded) × (a ≡ account) × (script ≡ script_name)
  Next prepared (upload_script a script source namespace) q =
      (q ≡ uploaded) × (a ≡ account) × (script ≡ script_name)
  Next uploaded (attach_domain a hostname script zone) q =
      (q ≡ attached)
      × (a ≡ account)
      × (hostname ≡ worker_hostname cfg.domain)
      × (script ≡ script_name)
      × (zone ≡ cfg.domain)
  Next attached (create_tunnel a name) q = (q ≡ tunnelled) × (a ≡ account) × (name ≡ tunnel_name)
  Next attached (create_record zone r) q =
      (q ≡ routed) × (r.name ≡ cfg.ws_host) × (r.proxied ≡ true)
  Next attached (update_record zone id r) q =
      (q ≡ routed) × (r.name ≡ cfg.ws_host) × (r.proxied ≡ true)
  Next tunnelled (create_record zone r) q =
      (q ≡ routed) × (r.name ≡ cfg.ws_host) × (r.proxied ≡ true)
  Next tunnelled (update_record zone id r) q =
      (q ≡ routed) × (r.name ≡ cfg.ws_host) × (r.proxied ≡ true)
  Next _ _ q = ⊥

  abbrev pub Move : Stage → AccountCall × Bool → Stage → Type 0
  Move p (call, true) q = Next p call q
  Move p (call, false) q = ((m : Stage) × Next p call m) × (q ≡ broken p)

  -- The calls, the last one first, lead from the start to a stage.
  abbrev pub Reaches : List (AccountCall × Bool) → Stage → Type 0
  Reaches [] q = q ≡ start
  Reaches (e ∷ calls) q = (p : Stage) × Reaches calls p × Move p e q

  module _ {S : Type 0} where
    -- Where a function that returns leaves the deployment, and one that fails.
    abbrev pub Ends :
        {A : Type 0} → (Stage → Type 0) → (Stage → Type 0) → State S × Result DeployError A → Type 0
    Ends P E (s, ok a) = (q : Stage) × Reaches s.1 q × P q
    Ends P E (s, err e) = (q : Stage) × Reaches s.1 q × E q

    chosen-Ends :
        {A : Type 0} (P E : Stage → Type 0) (s : State S) (q : Stage) (o : Option A)
        → Reaches s.1 q
        → P q
        → E q
        → Ends P E (s, elim o [ none ↦ err not_parsed | some a ↦ ok a ])
    chosen-Ends P E s q none h p x = (q, h, x)
    chosen-Ends P E s q (some a) h p x = (q, h, p)

    done-Ends :
        {A : Type 0} (P E : Stage → Type 0) (decode : Bytes → Option A) (s' : S)
        (calls : List (AccountCall × Bool)) (call : AccountCall) (r : Result Bytes Bytes)
        (p m : Stage)
        → Reaches calls p
        → Next p call m
        → P m
        → E m
        → E (broken p)
        → Ends P E ((s', (call, succeeded r) ∷ calls), decoded decode r)
    done-Ends P E decode s' calls call (err e) p m h n pm em eb =
        (broken p, (p, h, ((m, n), refl)), eb)
    done-Ends P E decode s' calls call (ok raw) p m h n pm em eb =
        chosen-Ends P E (s', (call, true) ∷ calls) m (decode raw) (p, h, n) pm em

    module _ (c : Codec) (net : Transport S) (token : Bytes) where
      -- A call that is allowed where the deployment stands.
      pub perform-Ends :
          {A : Type 0} (P E : Stage → Type 0) (decode : Bytes → Option A) (s : State S)
          (call : AccountCall) (p m : Stage)
          → Reaches s.1 p
          → Next p call m
          → P m
          → E m
          → E (broken p)
          → Ends P E (perform c net token decode s call)
      unfolding perform
      perform-Ends P E decode s call p m h n pm em eb =
          done-Ends P E decode (net.send s.0 (request_of c net token call)).0 s.1 call _ p m h n pm
            em eb

    created-Ends :
        (P E : Stage → Type 0) (create : State S × Result DeployError Named)
        → Ends P E create
        → Ends P E (created_id create)
    unfolding created_id
    created-Ends P E (s, ok t) made = made
    created-Ends P E (s, err e) made = made

    pub find_or_create-Ends :
        (P E : Stage → Type 0) (s : State S) (name : Bytes) (p : Stage)
        (listed : Result DeployError (List Named)) (create : State S × Result DeployError Named)
        → Reaches s.1 p
        → P p
        → E p
        → Ends P E create
        → Ends P E (find_or_create s name listed create)
    unfolding find_or_create
    find_or_create-Ends P E s name p (err e) create h pp ep made = (p, h, ep)
    find_or_create-Ends P E s name p (ok listed) create h pp ep made =
        by_found (find_named name listed)
      where
        by_found :
            (found : Option Bytes)
            → Ends {A = Bytes} P E (elim found [ some id ↦ (s, ok id) | none ↦ created_id create ])
        by_found (some id) = (p, h, pp)
        by_found none = created-Ends P E create made
