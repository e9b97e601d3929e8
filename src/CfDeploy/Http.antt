-- ===== src/CfDeploy/Http.antt =====
-- internal/cfdeploy over HTTP: the interface `Cloudflare`, as the functions of the package make it of
-- `doRequest`. The transport, with the state of the account behind it, and the encodings of Go's
-- libraries are arguments. The state of the interface is the transport's, with the calls that change
-- the account, the last one first, and whether each gave a result.
pub mod Protocol
pub mod Route
pub mod Deployment
use xray_vless_ws_go.Base.{
  Bool, true, false, List, [], ◌∷◌, ◌++◌, Option, none, some, Bytes, codes, concat, Result, ok, err,
}
use xray_vless_ws_go.Xray.Json.{Json, text, boolean, map_of}
use xray_vless_ws_go.CfDeploy.{
  DeployError, request_failed, not_parsed, Named, DnsRecord, Cloudflare,
}
use xray_vless_ws_go.CfDeploy.Client.{
  Envelope, Answer, content_type_of, do_request, Part, script_metadata, script_parts, script_path,
  attach_body, domains_path,
}

pub record HttpRequest : Type 0 where
  pub method : Bytes
  pub url : Bytes
  pub authorization : Bytes
  pub content_type : Option Bytes
  pub body : Bytes

-- A GET reads the account; any other request may change it, also where it is answered by an error.
pub record Transport (S : Type 0) : Type 0 where
  pub get : S → HttpRequest → Answer
  pub send : S → HttpRequest → S × Answer

-- encoding/json, mime/multipart (the body and its Content-Type) and `url.Values.Encode`.
pub record Codec : Type 0 where
  pub envelope : Bytes → Option Envelope
  pub named : Bytes → Option Named
  pub named_list : Bytes → Option (List Named)
  pub namespace : Bytes → Option Named
  pub namespace_list : Bytes → Option (List Named)
  pub record_list : Bytes → Option (List DnsRecord)
  pub string : Bytes → Option Bytes
  pub marshal : Json → Bytes
  pub form : List Part → Bytes × Bytes
  pub encode : List (Bytes × Bytes) → Bytes

-- A call that changes the account.
pub data AccountCall : Type 0 where
  create_namespace : (account title : Bytes) → AccountCall
  upload_script : (account script source namespace : Bytes) → AccountCall
  attach_domain : (account hostname script zone : Bytes) → AccountCall
  create_tunnel : (account name : Bytes) → AccountCall
  create_record : (zone : Bytes) → (r : DnsRecord) → AccountCall
  update_record : (zone id : Bytes) → (r : DnsRecord) → AccountCall

-- A method, a path, a body and its Content-Type, empty where it is left to `doRequest`.
abbrev Parts : Type 0
Parts = Bytes × Bytes × Bytes × Bytes

abbrev pub namespaces_path : Bytes → Bytes
namespaces_path account =
    concat (codes "/accounts/" ∷ account ∷ codes "/storage/kv/namespaces" ∷ [])

abbrev pub tunnels_path : Bytes → Bytes
tunnels_path account = concat (codes "/accounts/" ∷ account ∷ codes "/cfd_tunnel" ∷ [])

abbrev pub records_path : Bytes → Bytes
records_path zone = concat (codes "/zones/" ∷ zone ∷ codes "/dns_records" ∷ [])

abbrev pub record_body : DnsRecord → Json
record_body r = map_of (
    (codes "id", text r.id)
    ∷ (codes "type", text (codes "CNAME"))
    ∷ (codes "name", text r.name)
    ∷ (codes "content", text r.content)
    ∷ (codes "proxied", boolean r.proxied)
    ∷ [])

unfoldable pub parts_of : Codec → AccountCall → Parts
unfolding script_parts script_metadata script_path attach_body domains_path
parts_of c (create_namespace account title) = (
  codes "POST",
  namespaces_path account,
  c.marshal (map_of ((codes "title", text title) ∷ [])),
  [],
)
parts_of c (upload_script account script source namespace) =
    let (body, content_type) =
      c.form (script_parts (c.marshal (script_metadata namespace)) source) in
    (codes "PUT", script_path account script, body, content_type)
parts_of c (attach_domain account hostname script zone) =
    (codes "PUT", domains_path account, c.marshal (attach_body hostname script zone), [])
parts_of c (create_tunnel account name) = (
  codes "POST",
  tunnels_path account,
  c.marshal
      (map_of ((codes "name", text name) ∷ (codes "config_src", text (codes "cloudflare")) ∷ [])),
  [],
)
parts_of c (create_record zone r) = (codes "POST", records_path zone, c.marshal (record_body r), [])
parts_of c (update_record zone id r) =
    (codes "PUT", records_path zone ++ (codes "/" ++ id), c.marshal (record_body r), [])

abbrev pub api_base_url : Bytes
api_base_url = codes "https://api.cloudflare.com/client/v4"

abbrev pub State : Type 0 → Type 0
State S = S × List (AccountCall × Bool)

abbrev succeeded {ℓ} : {A : Type ℓ} → Result Bytes A → Bool
succeeded (ok a) = true
succeeded (err e) = false

abbrev pub decoded {ℓ} :
    {A : Type ℓ} → (Bytes → Option A) → Result Bytes Bytes → Result DeployError A
decoded decode (err e) = err request_failed
decoded decode (ok raw) = elim (decode raw) [ none ↦ err not_parsed | some a ↦ ok a ]

abbrev pub no_result : Bytes → Option (Unit {0})
no_result raw = some tt

module _ {S : Type 0} (c : Codec) (net : Transport S) (token : Bytes) where
  unfoldable pub get_request : Bytes → HttpRequest
  unfolding content_type_of
  get_request path = record {
    method = codes "GET";
    url = api_base_url ++ path;
    authorization = codes "Bearer " ++ token;
    content_type = content_type_of false [];
    body = [];
  }

  -- The request of a call that changes the account.
  unfoldable pub request_of : AccountCall → HttpRequest
  unfolding content_type_of parts_of
  request_of call =
      let (method, path, body, content_type) = parts_of c call in
      record {
        method = method;
        url = api_base_url ++ path;
        authorization = codes "Bearer " ++ token;
        content_type = content_type_of true content_type;
        body = body;
      }

  unfoldable pub fetch : {A : Type 0} → (Bytes → Option A) → State S → Bytes → Result DeployError A
  unfolding get_request do_request
  fetch decode s path =
      decoded decode (do_request c.envelope (codes "GET") path (net.get s.0 (get_request path)))

  unfoldable pub perform :
      {A : Type 0} → (Bytes → Option A) → State S → AccountCall → State S × Result DeployError A
  unfolding request_of do_request parts_of
  perform decode s call =
      let (s', answer) = net.send s.0 (request_of call) in
      let r = do_request c.envelope (parts_of c call).0 (parts_of c call).1 answer in
      ((s', (call, succeeded r) ∷ s.1), decoded decode r)

  unfoldable pub api : Cloudflare (State S)
  unfolding fetch perform
  api = record {
    list_accounts = λ s. fetch c.named_list s (codes "/accounts");
    list_namespaces = λ s account. fetch c.namespace_list s (namespaces_path account);
    create_namespace = λ s account title. perform c.namespace s (create_namespace account title);
    upload_script = λ s account script source namespace.
        perform no_result s (upload_script account script source namespace);
    attach_domain = λ s account hostname script zone.
        perform no_result s (attach_domain account hostname script zone);
    list_tunnels = λ s account name. fetch c.named_list s (
        tunnels_path account
        ++ b'?' ∷ c.encode ((codes "name", name) ∷ (codes "is_deleted", codes "false") ∷ []));
    create_tunnel = λ s account name. perform c.named s (create_tunnel account name);
    tunnel_token =
        λ s account id. fetch c.string s (tunnels_path account ++ b'/' ∷ (id ++ codes "/token"));
    list_zones = λ s domain.
        fetch c.named_list s (codes "/zones?" ++ c.encode ((codes "name", domain) ∷ []));
    list_records = λ s zone hostname. fetch c.record_list s (
        records_path zone
        ++ b'?' ∷ c.encode ((codes "type", codes "CNAME") ∷ (codes "name", hostname) ∷ []));
    create_record = λ s zone r. perform no_result s (create_record zone r);
    update_record = λ s zone id r. perform no_result s (update_record zone id r);
  }
