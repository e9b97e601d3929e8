-- ===== src/LogServer/Server/Content.antt =====
-- internal/logserver/server.go: the handlers that read: the subscription, the information on the
-- links, the log lines and the statistics.
use xray_vless_ws_go.Base.{
  ℕ, ◌+◌, ◌-◌, ◌*◌, ◌/◌, ◌%◌, ◌≡◌, refl, true, false, ◌||◌, List, [], ◌∷◌, ◌++◌, Option, none, some,
  Bytes, codes, bytes_eq, ◌==◌, ltb, if◌then◌else◌,
}
use xray_vless_ws_go.Text.Trim.{trim_space}
use xray_vless_ws_go.Text.Split.{split}
use xray_vless_ws_go.Text.Decimal.{ℤ, pos, atoi}
use xray_vless_ws_go.LogServer.Ring.{since}
use xray_vless_ws_go.LogServer.Status.{snapshot}
use xray_vless_ws_go.LogServer.Server.{
  Request, Server, World, Response, not_ready, new_logs, stats, vless_info, subscription, plain,
}

-- The alphabet of base64.StdEncoding.
unfoldable pub base64_digit : ℕ → ℕ
base64_digit n =
    if ltb n 26
    then b'A' + n
    else if ltb n 52
    then 71 + n
    else if ltb n 62
    then n - 4
    else if n == 62
    then b'+'
    else b'/'

-- base64.StdEncoding.EncodeToString: three bytes are four digits, and `=` fills up.
unfoldable pub base64 : Bytes → Bytes
unfolding base64_digit
base64 [] = []
base64 (a ∷ []) = base64_digit (a / 4) ∷ base64_digit (a % 4 * 16) ∷ b'=' ∷ b'=' ∷ []
base64 (a ∷ b ∷ []) =
    base64_digit (a / 4)
    ∷ base64_digit (a % 4 * 16 + b / 16)
    ∷ base64_digit (b % 16 * 4)
    ∷ b'='
    ∷ []
base64 (a ∷ b ∷ c ∷ s) =
    base64_digit (a / 4)
    ∷ base64_digit (a % 4 * 16 + b / 16)
    ∷ base64_digit (b % 16 * 4 + c / 64)
    ∷ base64_digit (c % 64)
    ∷ base64 s

-- A file, or its older name where it has the default one.
unfoldable pub read_with_fallback : World → Bytes → Bytes → Bytes → Option Bytes
read_with_fallback w path usual older =
    let path' = if bytes_eq path [] then usual else path in
    elim (w.read_file path') [
      | some content ↦ some content
      | none ↦ if bytes_eq path' usual then w.read_file older else none
    ]

unfoldable pub read_config : Server → World → Option Bytes
unfolding read_with_fallback
read_config s w =
    read_with_fallback w s.config_path (codes "vless_info.config") (codes "frp_info.config")

unfoldable pub read_meta : Server → World → Option Bytes
unfolding read_with_fallback
read_meta s w = read_with_fallback w s.json_path (codes "vless_info.json") (codes "frp_info.json")

-- The lines that are not blank, trimmed.
unfoldable pub links_in : List Bytes → List Bytes
links_in [] = []
links_in (line ∷ lines) =
    let rest = links_in lines in
    let trimmed = trim_space line in if bytes_eq trimmed [] then rest else trimmed ∷ rest

unfoldable pub worker_sub_url : Server → Option Bytes
worker_sub_url s =
    if bytes_eq s.domain []
    then none
    else some (codes "https://vless." ++ (s.domain ++ codes "/sub"))

unfoldable pub handle_subscription : Server → World → Request → Response
unfolding read_config base64 plain
handle_subscription s w r = elim (read_config s w) [
  | none ↦ plain 503 not_ready
  | some content ↦ plain 200 (
      subscription (
        if bytes_eq r.raw (codes "1") || bytes_eq r.raw (codes "true")
        then content
        else base64 content))
]

-- A text that is no number counts as 0.
unfoldable pub handle_logs : Server → Request → Response
unfolding since plain
handle_logs s r =
    let last_id : ℤ = elim (atoi r.last_id) [ none ↦ pos 0 | some n ↦ n ] in
    let (lines, seq) = since s.ring last_id in plain 200 (new_logs lines seq)

unfoldable pub handle_stats : Server → World → Response
unfolding snapshot plain
handle_stats s w = plain 200 (stats (snapshot s.status w.now))

-- json.Unmarshal of the file beside the configuration, with the string fields that it has.
module _ (unmarshal : Bytes → Option (Bytes → Option Bytes)) where
  unfoldable pub handle_vless_info : Server → World → Response
  unfolding read_config read_meta links_in base64 worker_sub_url plain
  handle_vless_info s w = elim (read_config s w) [
    | none ↦ plain 200 (
        vless_info (record {
          ready = false;
          links = [];
          raw_config = [];
          base64_config = [];
          worker_sub_url = worker_sub_url s;
          meta = none;
        }))
    | some content ↦
        let links = links_in (split b'\n' content) in
        plain 200 (
          vless_info (record {
            ready = elim links [ [] ↦ false | _ ∷ _ ↦ true ];
            links = links;
            raw_config = content;
            base64_config = base64 content;
            worker_sub_url = worker_sub_url s;
            meta = elim (read_meta s w) [ none ↦ none | some text ↦ unmarshal text ];
          }))
  ]

base64_padded : base64 (codes "M" ++ codes "a") ≡ codes "TWE="
unfolding base64
base64_padded = refl
