-- ===== src/LogServer/Tests.antt =====
-- The theorems on the log server, each at one input.
use xray_vless_ws_go.Base.{
  false, ◌++◌, ℕ, suc, ◌-◌, ◌*◌, ◌/◌, ◌≡◌, refl, true, List, [], ◌∷◌, ◌++◌, ◌⊎◌, inl, none, some,
  arith, Bytes, bytes_eq, codes, length,
}
use xray_vless_ws_go.Text.Decimal.{ℤ, pos, atoi, read_unsigned, itoa}
use xray_vless_ws_go.Text.Split.{split}
use xray_vless_ws_go.LogServer.Ring.{Ring, capacity, new_ring, push, since}
use xray_vless_ws_go.LogServer.Ring.Invariant.{
  IsValid, push-IsValid, new_ring-IsValid, lines_after, since-lines_after,
}
use xray_vless_ws_go.LogServer.Ring.History.{Entry, push_all, take_last, number, push_all-take_last}
use xray_vless_ws_go.LogServer.Status.{new_status_store}
use xray_vless_ws_go.LogServer.Server.{
  Request, Server, World, unauthorized, plain, is_authenticated, handle_login,
}
use xray_vless_ws_go.LogServer.Server.Routes.{serve}
use xray_vless_ws_go.LogServer.Server.Laws.{
  Credential, serve-Credential, handle_login-is_authenticated,
}
use xray_vless_ws_go.LogServer.Page.{
  new_page, PageEvent, pushed, sent, answered, refused, lost, run_page,
}
use xray_vless_ws_go.LogServer.Page.Laws.{
  InTurn, delivered, Paced, pushes, run_page-delivered, run_page-pushes,
}
use xray_vless_ws_go.Text.Search.{contains, has_prefix}
use xray_vless_ws_go.LogServer.Auth.{validate_session_token, second, decode_hex}
use xray_vless_ws_go.LogServer.Auth.Sessions.{IsSigned, validate-IsSigned}

abbrev ring : Ring
ring = new_ring (pos 2)

-- Three lines in a ring for two, read behind the second.
abbrev full : Ring
full = push (push (push ring [] [] (codes "a")) [] [] (codes "b")) [] [] (codes "c")

full-IsValid : IsValid full
full-IsValid = push-IsValid _ [] [] (codes "c") (
    push-IsValid _ [] [] (codes "b")
      (push-IsValid ring [] [] (codes "a") (new_ring-IsValid (pos 2))))

since-lines_after_example : since full (pos 2) ≡ (lines_after (pos 2) full.logs, full.seq)
since-lines_after_example = since-lines_after full (pos 2) full-IsValid

abbrev entries : List Entry
entries =
    record { time = []; source = codes "xray"; text = codes "a" }
    ∷ record { time = []; source = codes "tunnel"; text = codes "b" }
    ∷ record { time = []; source = codes "xray"; text = codes "c" }
    ∷ []

push_all-take_last_example :
    let r = push_all (new_ring (pos 2)) entries in
    (r.logs ≡ take_last (capacity (pos 2)) (number 1 entries)) × (r.seq ≡ length entries)
push_all-take_last_example = push_all-take_last (pos 2) entries

abbrev rate : ℤ → ℤ → ℕ → ℤ
rate (pos total) (pos last) interval = pos ((total - last) * second / suc (interval - 1))
rate total last interval = pos 0

-- A signature that says the same of every message.
abbrev one_byte : Bytes → Bytes → Bytes
one_byte secret message = 7 ∷ []

accepted : validate_session_token one_byte (codes "0.07") (codes "s") 5 5 ≡ true
unfolding validate_session_token split atoi read_unsigned decode_hex bytes_eq
accepted = refl

validate-IsSigned_example : IsSigned one_byte (codes "0.07") (codes "s") 5 5
validate-IsSigned_example = validate-IsSigned one_byte (codes "0.07") (codes "s") 5 5 accepted

abbrev request : Request
request = record {
  method = codes "POST";
  path = codes "/logs";
  cookie = none;
  authorization = [];
  basic_password = none;
  content_type = codes "application/json";
  json_password = some (codes "pw");
  form_password = [];
  last_id = itoa 3;
  raw = [];
}

abbrev server : Server
server = record {
  password = codes "pw";
  status = new_status_store 5;
  domain = [];
  config_path = [];
  json_path = [];
  ring = push_all (new_ring (pos 3)) (entries ++ entries);
  auth_secret = codes "s";
}

abbrev world : World
world = record { now = 5; since_now = 6; until_now = 7; read_file = λ path. none }

serve-Credential_example :
    (serve one_byte (λ text. none) server world request ≡ plain 401 unauthorized)
    ⊎ Credential one_byte server world request
serve-Credential_example = serve-Credential one_byte (λ text. none) server world request (inl refl)

abbrev with_cookie : Request
with_cookie = record request { cookie = (handle_login one_byte server world request).set_cookie }

json_type : contains request.content_type (codes "application/json") ≡ true
unfolding contains has_prefix
json_type = refl

handle_login-is_authenticated_example : is_authenticated one_byte server world with_cookie ≡ true
handle_login-is_authenticated_example =
    handle_login-is_authenticated one_byte server world world request with_cookie (λ m. omega arith)
      (omega arith) (ground arith) refl json_type refl refl (omega arith) (omega arith)
      (omega arith)

abbrev entry : Entry
entry = record { time = []; source = codes "xray"; text = codes "a" }

-- Three lines, of which a ring of two keeps two, behind a poll that is lost.
abbrev burst : List PageEvent
burst =
    pushed entry
    ∷ sent
    ∷ lost 0
    ∷ pushed entry
    ∷ pushed entry
    ∷ sent
    ∷ answered 0
    ∷ pushed entry
    ∷ sent
    ∷ refused 0
    ∷ sent
    ∷ answered 0
    ∷ []

abbrev small_server : Server
small_server = record server { ring = new_ring (pos 2) }

burst-InTurn : InTurn false burst
burst-InTurn = ground arith

run_page-delivered_example :
    (run_page small_server request new_page [] burst).container
    ≡ delivered (capacity (pos 2)) 0 [] burst
run_page-delivered_example =
    run_page-delivered small_server request (pos 2) burst refl (omega arith) burst-InTurn

abbrev calm : List PageEvent
calm =
    pushed entry
    ∷ sent
    ∷ lost 0
    ∷ pushed entry
    ∷ sent
    ∷ answered 0
    ∷ sent
    ∷ answered 0
    ∷ pushed entry
    ∷ sent
    ∷ refused 0
    ∷ []

calm-Paced : Paced (capacity (pos 2)) 0 (calm ++ sent ∷ answered 0 ∷ [])
unfolding capacity
calm-Paced = (omega arith, (omega arith, (omega arith, tt)))

calm-InTurn : InTurn false (calm ++ sent ∷ answered 0 ∷ [])
calm-InTurn = ground arith

run_page-pushes_example :
    (run_page small_server request new_page [] (calm ++ sent ∷ answered 0 ∷ [])).container
    ≡ number 1 (pushes calm)
run_page-pushes_example =
    run_page-pushes small_server request (pos 2) calm refl (omega arith) calm-InTurn calm-Paced

-- Two fetches that are on the way at the same time are answered with the same line.
overlap :
    (run_page small_server request new_page []
      (pushed entry ∷ sent ∷ sent ∷ answered 0 ∷ answered 0 ∷ [])).container
    ≡ number 1 (entry ∷ []) ++ number 1 (entry ∷ [])
unfolding run_page new_ring atoi itoa
overlap = refl
