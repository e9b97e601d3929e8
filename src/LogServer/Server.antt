-- ===== src/LogServer/Server.antt =====
-- internal/logserver/server.go: the handlers and their routes. A request is what net/http makes of
-- it; the clock readings, the files and the JSON decoder's answers are arguments. The static files
-- of "/" are left to the file server.
pub mod Content
pub mod Routes
pub mod Laws
pub mod Polling
pub mod Start
use xray_vless_ws_go.Base.{
  ℕ, ◌+◌, ◌-◌, ◌*◌, ◌/◌, ◌%◌, ◌≡◌, refl, Bool, true, false, not, ◌&&◌, ◌||◌, List, [], ◌∷◌, ◌++◌,
  Option, none, some, Bytes, codes, bytes_eq, ◌==◌, ltb, if◌then◌else◌,
}
use xray_vless_ws_go.Text.Trim.{trim_space}
use xray_vless_ws_go.Text.Split.{split}
use xray_vless_ws_go.Text.Search.{has_prefix, trim_prefix, contains}
use xray_vless_ws_go.Text.Decimal.{ℤ, pos, atoi}
use xray_vless_ws_go.LogServer.Ring
use xray_vless_ws_go.LogServer.Ring.{LogLine, since}
use xray_vless_ws_go.LogServer.Status.{StatusStore, StatsSnapshot, snapshot}
use xray_vless_ws_go.LogServer.Auth.{create_session_token, validate_session_token}

-- The method, the path, the value of the session cookie, the Authorization header, the password that
-- `BasicAuth` finds in it, the Content-Type, the "password" of a JSON body (`none` where it does not
-- decode), that of a form, and the query's "last_id" and "raw".
pub record Request : Type 0 where
  pub method : Bytes
  pub path : Bytes
  pub cookie : Option Bytes
  pub authorization : Bytes
  pub basic_password : Option Bytes
  pub content_type : Bytes
  pub json_password : Option Bytes
  pub form_password : Bytes
  pub last_id : Bytes
  pub raw : Bytes

pub record Server : Type 0 where
  pub password : Bytes
  pub status : StatusStore
  pub domain : Bytes
  pub config_path : Bytes
  pub json_path : Bytes
  pub ring : Ring.Ring
  pub auth_secret : Bytes

-- What a handler finds outside: the readings of `time.Now`, `time.Since` and `time.Until`, and the
-- content of a file, `none` where it cannot be read.
pub record World : Type 0 where
  pub now : ℕ
  pub since_now : ℕ
  pub until_now : ℕ
  pub read_file : Bytes → Option Bytes

-- The object of /api/vless-info, without the constant "sub_path"; `meta` gives the string fields of
-- the decoded file beside it.
pub record VlessInfo : Type 0 where
  pub ready : Bool
  pub links : List Bytes
  pub raw_config : Bytes
  pub base64_config : Bytes
  pub worker_sub_url : Option Bytes
  pub meta : Option (Bytes → Option Bytes)

pub data Body : Type 0 where
  method_not_allowed unauthorized invalid_json invalid_password : Body
  login_not_required logged_out not_ready static_file : Body
  logged_in : Bytes → Body
  auth_status : Bool → Bool → Body
  new_logs : List LogLine → ℕ → Body
  stats : StatsSnapshot → Body
  vless_info : VlessInfo → Body
  subscription : Bytes → Body

-- `set_cookie` is the session cookie's new value, the empty text where it is cleared.
pub record Response : Type 0 where
  pub code : ℕ
  pub set_cookie : Option Bytes
  pub body : Body

unfoldable pub plain : ℕ → Body → Response
plain code body = record { code = code; set_cookie = none; body = body }

unfoldable pub handle_logout : Response
handle_logout = record { code = 200; set_cookie = some []; body = logged_out }

unfoldable pub login_with : Bytes → Response
login_with token = record { code = 200; set_cookie = some token; body = logged_in token }

module _ (hmac : Bytes → Bytes → Bytes) where
  unfoldable pub has_session : Server → World → Option Bytes → Bool
  has_session s w none = false
  has_session s w (some token) =
      not (bytes_eq token [])
      && validate_session_token hmac token s.auth_secret w.since_now w.until_now

  -- subtle.ConstantTimeCompare of the password of the header, where it has one.
  unfoldable pub has_basic : Server → Option Bytes → Bool
  has_basic s none = false
  has_basic s (some pass) = bytes_eq pass s.password

  unfoldable pub has_bearer : Server → World → Bytes → Bool
  has_bearer s w authorization =
      let token = trim_prefix authorization (codes "Bearer ") in
      has_prefix authorization (codes "Bearer ")
      && (validate_session_token hmac token s.auth_secret w.since_now w.until_now
          || bytes_eq token s.password)

  unfoldable pub is_authenticated : Server → World → Request → Bool
  unfolding has_session has_bearer has_basic
  is_authenticated s w r =
      if bytes_eq s.password []
      then true
      else if has_session s w r.cookie
      then true
      else if bytes_eq r.authorization []
      then false
      else has_bearer s w r.authorization || has_basic s r.basic_password

  unfoldable pub with_auth : Server → World → Request → Response → Response
  unfolding is_authenticated plain
  with_auth s w r next = if is_authenticated s w r then next else plain 401 unauthorized

  -- The end of `handleLogin`, with the password that was sent.
  unfoldable pub check_password : Server → World → Bytes → Response
  unfolding plain login_with
  check_password s w sent =
      if bytes_eq sent s.password
      then login_with (create_session_token hmac s.auth_secret w.now)
      else plain 401 invalid_password

  unfoldable pub handle_login : Server → World → Request → Response
  unfolding check_password plain
  handle_login s w r =
      if not (bytes_eq r.method (codes "POST"))
      then plain 405 method_not_allowed
      else if bytes_eq s.password []
      then plain 200 login_not_required
      else if contains r.content_type (codes "application/json")
      then elim r.json_password [
        | none ↦ plain 400 invalid_json
        | some sent ↦ check_password s w sent
      ]
      else check_password s w r.form_password

  unfoldable pub handle_auth_status : Server → World → Request → Response
  unfolding is_authenticated plain
  handle_auth_status s w r =
      plain 200 (auth_status (not (bytes_eq s.password [])) (is_authenticated s w r))
