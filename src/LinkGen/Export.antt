-- ===== src/LinkGen/Export.antt =====
-- internal/linkgen/export.go, webhook.go and publicip.go. The disk is an argument, json.Marshal and
-- the answers of the two services are too; what is printed on success is left out.
pub mod Served
use xray_vless_ws_go.Base.{
  ℕ, Bool, true, false, List, [], ◌∷◌, ◌++◌, Option, none, some, Bytes, codes, bytes_eq, concat,
  Result, ok, err, ◌==◌, if◌then◌else◌,
}
use xray_vless_ws_go.Text.Decimal.{ℤ, format_int, pos}
use xray_vless_ws_go.Text.Split.{join}

-- linkgen.ExportMeta.
pub record ExportMeta : Type 0 where
  pub ip : Bytes
  pub ws_host : Bytes
  pub ws_path : Bytes
  pub transport : Bytes
  pub start_time : ℤ

-- `vlessInfo`.
pub record ExportedInfo : Type 0 where
  pub payloads : List Bytes
  pub ip : Bytes
  pub ws_host : Bytes
  pub ws_path : Bytes
  pub transport : Bytes
  pub start_time : ℤ

-- os.WriteFile, with its error, and os.ReadFile.
pub record Disk (S : Type 0) : Type 0 where
  pub write_file : Bytes → Bytes → S → Option Bytes × S
  pub read_file : S → Bytes → Option Bytes

pub data ExportError : Type 0 where
  writing marshaling : Bytes → Bytes → ExportError

abbrev pub error_of : (Bytes → ExportError) → Option Bytes → List ExportError
error_of e none = []
error_of e (some t) = e t ∷ []

unfoldable pub exported_info : List Bytes → ExportMeta → ExportedInfo
exported_info links meta = record {
  payloads = links;
  ip = meta.ip;
  ws_host = meta.ws_host;
  ws_path = meta.ws_path;
  transport = meta.transport;
  start_time = meta.start_time;
}

module _ {S : Type 0} (disk : Disk S) (marshal_indent : ExportedInfo → Result Bytes Bytes) where
  unfoldable pub write_json : Bytes → Result Bytes Bytes → S → List ExportError × S
  write_json json_path (err t) s = (marshaling json_path t ∷ [], s)
  write_json json_path (ok bytes) s =
      let (failure, s₁) = disk.write_file json_path bytes s in
      (error_of (writing json_path) failure, s₁)

  -- `Export`: the errors that are joined, none for nil.
  unfoldable pub export : List Bytes → ExportMeta → Bytes → Bytes → S → List ExportError × S
  unfolding join exported_info write_json
  export links meta config_path json_path s =
      let (failure, s₁) = disk.write_file config_path (join (b'\n' ∷ []) links) s in
      let (errors, s₂) = write_json json_path (marshal_indent (exported_info links meta)) s₁ in
      (error_of (writing config_path) failure ++ errors, s₂)

abbrev pub fallback_ip : Bytes
fallback_ip = codes "0.0.0.0"

-- `LookupPublicIP`, by the errors of the request and of its sending, and by the body of the answer.
unfoldable pub lookup_public_ip : Option Bytes → Option Bytes → Result Bytes Bytes → Bytes
lookup_public_ip (some _) _ _ = fallback_ip
lookup_public_ip none (some _) _ = fallback_ip
lookup_public_ip none none (err _) = fallback_ip
lookup_public_ip none none (ok body) = body

-- `SendWebhook`: the line that its goroutine prints, if there is one; the results are those of the
-- marshalling, of the request and of the answer's status.
unfoldable pub send_webhook : Bytes → Option Bytes → Option Bytes → Result Bytes ℕ → Option Bytes
unfolding bytes_eq format_int
send_webhook url marshaled requested answer =
    let failed : Bytes → Bytes = λ e. codes "[!] Error sending webhook: " ++ e in
    let line : Bytes = elim marshaled [
      | some e ↦ failed e
      | none ↦ elim requested [
        | some e ↦ failed e
        | none ↦ elim answer [
          | err e ↦ failed e
          | ok status ↦
              if status == 200
              then codes "[+] Webhook sent successfully!"
              else codes "[-] Webhook failed with status: " ++ format_int (pos status)
        ]
      ]
    ] in
    if bytes_eq url [] then none else some line
