-- ===== src/CfDeploy/Client.antt =====
-- internal/cfdeploy/client.go, script.go and domain.go: the requests to Cloudflare and the reading of
-- the answer. The transport, encoding/json and mime/multipart are arguments.
pub mod Laws
use xray_vless_ws_go.Base.{
  ℕ, ◌≡◌, refl, Bool, true, false, not, ◌||◌, List, [], ◌∷◌, ◌++◌, Option, none, some, Bytes, codes,
  bytes_eq, concat, length, take, leb, ltb, Result, ok, err, if◌then◌else◌,
}
use xray_vless_ws_go.Text.Decimal.{ℤ, pos, format_int}
use xray_vless_ws_go.Text.Split.{join}
use xray_vless_ws_go.Xray.Json.{Json, text, map_of, slice_of}

pub record ApiError : Type 0 where
  pub code : ℤ
  pub message : Bytes

-- `apiEnvelope`; the result is its raw JSON.
pub record Envelope : Type 0 where
  pub success : Bool
  pub errors : List ApiError
  pub result : Bytes

unfoldable pub error_text : ApiError → Bytes
unfolding format_int
error_text e = format_int e.code ++ (codes ": " ++ e.message)

abbrev error_texts : List ApiError → List Bytes
error_texts [] = []
error_texts (e ∷ es) = error_text e ∷ error_texts es

unfoldable pub format_errors : List ApiError → Bytes
unfolding error_text join
format_errors [] = codes "no error detail returned"
format_errors (e ∷ es) = join (codes "; ") (error_texts (e ∷ es))

unfoldable pub truncate : Bytes → ℕ → Bytes
truncate b n = if leb (length b) n then b else take n b ++ codes "..."

-- The Content-Type of a request, where it has a body.
unfoldable pub content_type_of : Bool → Bytes → Option Bytes
unfolding bytes_eq
content_type_of false content_type = none
content_type_of true content_type =
    some (if bytes_eq content_type [] then codes "application/json" else content_type)

-- The error of http.NewRequest, or of the sending; the status, and the body or the error of reading it.
pub data Answer : Type 0 where
  not_built not_sent : Bytes → Answer
  not_read : ℕ → Bytes → Answer
  answered : ℕ → Bytes → Answer

abbrev named : Bytes → Bytes → Bytes
named method path = method ++ (b' ' ∷ path)

module _ (unmarshal : Bytes → Option Envelope) where
  unfoldable pub read_envelope : Bytes → Bytes → ℕ → Bytes → Option Envelope → Result Bytes Bytes
  unfolding format_int truncate format_errors
  read_envelope method path status raw none = err (
      concat (
        codes "cfdeploy: "
        ∷ named method path
        ∷ codes ": HTTP "
        ∷ format_int (pos status)
        ∷ codes ", non-JSON body: "
        ∷ truncate raw 200
        ∷ []))
  read_envelope method path status raw (some env) =
      if not env.success || leb 300 status
      then err (
          concat (
            codes "cfdeploy: "
            ∷ named method path
            ∷ codes ": HTTP "
            ∷ format_int (pos status)
            ∷ codes ": "
            ∷ format_errors env.errors
            ∷ []))
      else ok env.result

  -- `doRequest`, by the answer of the transport.
  unfoldable pub do_request : Bytes → Bytes → Answer → Result Bytes Bytes
  unfolding read_envelope
  do_request method path (not_built e) =
      err (concat (codes "cfdeploy: building request " ∷ named method path ∷ codes ": " ∷ e ∷ []))
  do_request method path (not_sent e) =
      err (concat (codes "cfdeploy: " ∷ named method path ∷ codes ": " ∷ e ∷ []))
  do_request method path (not_read status e) = err (
      concat
        (codes "cfdeploy: reading response body for " ∷ named method path ∷ codes ": " ∷ e ∷ []))
  do_request method path (answered status raw) =
      read_envelope method path status raw (unmarshal raw)

-- `scriptMetadata` of an upload, bound to the namespace.
unfoldable pub script_metadata : Bytes → Json
script_metadata namespace = map_of (
    (codes "main_module", text (codes "worker.js"))
    ∷ (codes "compatibility_date", text (codes "2024-09-01"))
    ∷ (
      codes "bindings",
      slice_of (
          map_of (
            (codes "type", text (codes "kv_namespace"))
            ∷ (codes "name", text (codes "KV_CONFIG"))
            ∷ (codes "namespace_id", text namespace)
            ∷ [])
          ∷ []),
    )
    ∷ [])

-- A part of a multipart body.
pub record Part : Type 0 where
  pub disposition : Bytes
  pub content_type : Bytes
  pub content : Bytes

-- The two parts of the upload, by the marshalled metadata.
unfoldable pub script_parts : Bytes → Bytes → List Part
script_parts metadata source =
    record {
      disposition = codes "form-data; name=\"metadata\"";
      content_type = codes "application/json";
      content = metadata;
    }
    ∷ record {
      disposition = codes "form-data; name=\"worker.js\"; filename=\"worker.js\"";
      content_type = codes "application/javascript+module";
      content = source;
    }
    ∷ []

unfoldable pub script_path : Bytes → Bytes → Bytes
script_path account script =
    concat (codes "/accounts/" ∷ account ∷ codes "/workers/scripts/" ∷ script ∷ [])

-- `attachDomainRequest`.
unfoldable pub attach_body : Bytes → Bytes → Bytes → Json
attach_body hostname script zone = map_of (
    (codes "hostname", text hostname)
    ∷ (codes "service", text script)
    ∷ (codes "zone_name", text zone)
    ∷ [])

unfoldable pub domains_path : Bytes → Bytes
domains_path account = concat (codes "/accounts/" ∷ account ∷ codes "/workers/domains" ∷ [])
