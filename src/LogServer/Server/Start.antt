-- ===== src/LogServer/Server/Start.antt =====
-- internal/logserver/server.go, `New` and the end of `Start`, with the secret of auth.go and its
-- cookies. sha256.Sum256 is an argument.
use xray_vless_ws_go.Base.{
  ℕ, ◌+◌, ◌*◌, ◌/◌, ◌<◌, ◌≡◌, refl, Bool, true, false, [], Option, none, some, Bytes, codes, arith,
  ltb, length,
}
use xray_vless_ws_go.Text.Decimal.{ℤ, pos, negsuc, itoa}
use xray_vless_ws_go.LogServer.Ring.{new_ring}
use xray_vless_ws_go.LogServer.Status.{new_status_store}
use xray_vless_ws_go.LogServer.Auth.{second, session_duration}
use xray_vless_ws_go.LogServer.Server.{Server}

-- `generateAuthSecret`: the random bytes, or the hash of the clock where there are none.
unfoldable pub generate_auth_secret : (Bytes → Bytes) → Option Bytes → ℕ → Bytes
generate_auth_secret sha256 none now = sha256 (itoa now)
generate_auth_secret sha256 (some secret) now = secret

-- `New`, but for the address that it listens on.
unfoldable pub new_server : (Bytes → Bytes) → Option Bytes → ℕ → Bytes → ℤ → Server
unfolding generate_auth_secret
new_server sha256 random now password max_logs = record {
  password = password;
  status = new_status_store now;
  domain = [];
  config_path = codes "vless_info.config";
  json_path = codes "vless_info.json";
  ring = new_ring max_logs;
  auth_secret = generate_auth_secret sha256 random now;
}

-- A secret is 32 bytes long, where both of its sources are.
generate_auth_secret-length :
    (sha256 : Bytes → Bytes) (random : Option Bytes) (now : ℕ)
    → ((m : Bytes) → length (sha256 m) ≡ 32)
    → ((b : Bytes) → random ≡ some b → length b ≡ 32)
    → length (generate_auth_secret sha256 random now) ≡ 32
unfolding generate_auth_secret
generate_auth_secret-length sha256 none now hash drawn = hash (itoa now)
generate_auth_secret-length sha256 (some b) now hash drawn = drawn b refl

-- http.Cookie, as far as it is set. `expires` is in seconds since 1970.
pub record Cookie : Type 0 where
  pub name : Bytes
  pub value : Bytes
  pub path : Bytes
  pub max_age : ℤ
  pub expires : Option ℕ
  pub http_only : Bool
  pub same_site_lax : Bool

-- `setSessionCookie`.
unfoldable pub session_cookie : Bytes → Cookie
session_cookie token = record {
  name = codes "xray_session";
  value = token;
  path = codes "/";
  max_age = pos (session_duration / second);
  expires = none;
  http_only = true;
  same_site_lax = true;
}

-- `clearSessionCookie`.
unfoldable pub cleared_cookie : Cookie
cleared_cookie = record {
  name = codes "xray_session";
  value = [];
  path = codes "/";
  max_age = negsuc 0;
  expires = some 0;
  http_only = true;
  same_site_lax = true;
}

-- A browser keeps a cookie for its Max-Age in seconds, and drops it where that is not positive.
abbrev is_kept : Cookie → ℕ → ℕ → Bool
is_kept c since now = by_age c.max_age
  where
    by_age : ℤ → Bool
    by_age (pos age) = ltb now (since + age * second)
    by_age (negsuc n) = false

-- A browser that keeps the cookie of a login has a session that is not over.
session_cookie-is_kept :
    (token : Bytes) (since now : ℕ)
    → is_kept (session_cookie token) since now ≡ true
    → now < since + session_duration
unfolding session_cookie
session_cookie-is_kept token since now h = ground (arith, h)

-- What the `select` of `Start` receives: the end of the context, or of ListenAndServe, with its error
-- unless that is http.ErrServerClosed.
pub data Stopped : Type 0 where
  done closed : Stopped
  failed : Bytes → Stopped

-- The error of `Start`, and whether it shuts the server down.
unfoldable pub start_result : Stopped → Option Bytes × Bool
start_result done = (none, true)
start_result closed = (none, false)
start_result (failed e) = (some e, false)
