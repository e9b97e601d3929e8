-- ===== src/LogServer/Server/Laws.antt =====
-- Who is let in by the session cookie, the header or the login.
use xray_vless_ws_go.Base.{
  ℕ, ◌+◌, ◌*◌, ◌/◌, ◌≤◌, ◌<◌, ◌≡◌, ◌≢◌, refl, ap, ◌∙◌, ◌⊎◌, inl, inr, true, false, [], ◌∷◌, ◌++◌,
  Option, none, some, arith, Bytes, IsBytes, codes, bytes_eq, bytes_eq_sound, bytes_eq_refl,
  bytes_eq_ne, Bool-cases,
}
use xray_vless_ws_go.Text.Decimal.{int_limit}
use xray_vless_ws_go.Text.Search.{has_prefix, trim_prefix, contains}
use xray_vless_ws_go.LogServer.Auth.{
  create_session_token, validate_session_token, session_duration, second,
}
use xray_vless_ws_go.LogServer.Auth.Sessions.{IsSigned, validate-create, validate-IsSigned}
use xray_vless_ws_go.LogServer.Server.{
  Request, Server, World, Response, unauthorized, plain, login_with, has_session, has_basic,
  has_bearer, is_authenticated, with_auth, handle_login,
}
use xray_vless_ws_go.LogServer.Server.Content.{handle_logs, handle_stats, handle_vless_info}
use xray_vless_ws_go.LogServer.Server.Routes.{serve}

path_is : (r : Request) (p x : Bytes) → r.path ≡ p → bytes_eq r.path x ≡ bytes_eq p x
path_is r p x e = ap (λ q. bytes_eq q x) e

module _ (hmac : Bytes → Bytes → Bytes) where
  -- What lets a request in.
  pub data Credential (s : Server) (w : World) (r : Request) : Type 0 where
    no_password : s.password ≡ [] → Credential s w r
    session :
        (token : Bytes)
        → r.cookie ≡ some token
        → IsSigned hmac token s.auth_secret w.since_now w.until_now
        → Credential s w r
    bearer_token :
        has_prefix r.authorization (codes "Bearer ") ≡ true
        → IsSigned hmac
            (trim_prefix r.authorization (codes "Bearer "))
            s.auth_secret
            w.since_now
            w.until_now
        → Credential s w r
    bearer_password :
        has_prefix r.authorization (codes "Bearer ") ≡ true
        → trim_prefix r.authorization (codes "Bearer ") ≡ s.password
        → Credential s w r
    basic : r.basic_password ≡ some s.password → Credential s w r

  has_session-IsSigned :
      (s : Server) (w : World) (o : Option Bytes)
      → has_session hmac s w o ≡ true
      → (token : Bytes) × (o ≡ some token)
        × IsSigned hmac token s.auth_secret w.since_now w.until_now
  unfolding has_session
  has_session-IsSigned s w none h = cc
  has_session-IsSigned s w (some token) h = (
    token,
    refl,
    validate-IsSigned hmac token s.auth_secret w.since_now w.until_now (ground arith),
  )

  has_basic-password :
      (s : Server) (o : Option Bytes) → has_basic hmac s o ≡ true → o ≡ some s.password
  unfolding has_basic
  has_basic-password s none h = cc
  has_basic-password s (some pass) h = ap some (bytes_eq_sound pass s.password h)

  has_bearer-Credential :
      (s : Server) (w : World) (r : Request)
      → has_bearer hmac s w r.authorization ≡ true
      → Credential s w r
  unfolding has_bearer
  has_bearer-Credential s w r h =
      elim (Bool-cases (
        validate_session_token hmac (trim_prefix r.authorization (codes "Bearer ")) s.auth_secret
          w.since_now w.until_now)) [
            | inl v ↦
                bearer_token (ground arith)
                  (validate-IsSigned hmac _ s.auth_secret w.since_now w.until_now v)
            | inr v ↦ bearer_password (ground arith) (bytes_eq_sound _ s.password (ground arith))
          ]

  -- A request that is let in has a credential, unless the server has no password: a session cookie or
  -- a bearer token with a live signature of the server, or the password itself.
  is_authenticated-Credential :
      (s : Server) (w : World) (r : Request) → is_authenticated hmac s w r ≡ true → Credential s w r
  unfolding is_authenticated
  is_authenticated-Credential s w r h = elim (Bool-cases (bytes_eq s.password [])) [
    | inl e ↦ no_password (bytes_eq_sound s.password [] e)
    | inr e ↦ elim (Bool-cases (has_session hmac s w r.cookie)) [
      | inl c ↦
          let (token, p, signed) = has_session-IsSigned s w r.cookie c in session token p signed
      | inr c ↦ elim (Bool-cases (has_bearer hmac s w r.authorization)) [
        | inl b ↦ has_bearer-Credential s w r b
        | inr b ↦ basic (has_basic-password s r.basic_password (ground arith))
      ]
    ]
  ]

  with_auth-Credential :
      (s : Server) (w : World) (r : Request) (next : Response)
      → (with_auth hmac s w r next ≡ plain 401 unauthorized) ⊎ Credential s w r
  unfolding with_auth
  with_auth-Credential s w r next = elim (Bool-cases (is_authenticated hmac s w r)) [
    | inl a ↦ inr (is_authenticated-Credential s w r a)
    | inr a ↦ inl (rw a refl)
  ]

  -- The paths /logs, /stats and /api/vless-info answer 401 and nothing else, or the request has a
  -- credential: a session cookie or a bearer token with a live signature of the server, the
  -- password as a bearer token or in basic authentication, or any request where the server has no
  -- password.
  pub serve-Credential :
      (unmarshal : Bytes → Option (Bytes → Option Bytes)) (s : Server) (w : World) (r : Request)
      → (r.path ≡ codes "/logs") ⊎ (r.path ≡ codes "/stats") ⊎ (r.path ≡ codes "/api/vless-info")
      → (serve hmac unmarshal s w r ≡ plain 401 unauthorized) ⊎ Credential s w r
  unfolding serve bytes_eq
  serve-Credential unmarshal s w r (inl e) =
      rw (path_is r _ (codes "/logs") e) (with_auth-Credential s w r (handle_logs s r))
  serve-Credential unmarshal s w r (inr (inl e)) =
      rw (path_is r _ (codes "/logs") e, path_is r _ (codes "/stats") e)
        (with_auth-Credential s w r (handle_stats s w))
  serve-Credential unmarshal s w r (inr (inr e)) =
      rw
        (
          path_is r _ (codes "/logs") e,
          path_is r _ (codes "/stats") e,
          path_is r _ (codes "/api/vless-info") e,
        )
        (with_auth-Credential s w r (handle_vless_info unmarshal s w))

  token-ne_nil : (xs ys : Bytes) (y : ℕ) → bytes_eq (xs ++ y ∷ ys) [] ≡ false
  unfolding bytes_eq
  token-ne_nil [] ys y = refl
  token-ne_nil (x ∷ xs) ys y = refl

  create_session_token-ne_nil :
      (secret : Bytes) (now : ℕ) → bytes_eq (create_session_token hmac secret now) [] ≡ false
  unfolding create_session_token
  create_session_token-ne_nil secret now = token-ne_nil _ _ b'.'

  handle_login-set_cookie :
      (s : Server) (w : World) (r : Request)
      → s.password ≢ []
      → r.method ≡ codes "POST"
      → contains r.content_type (codes "application/json") ≡ true
      → r.json_password ≡ some s.password
      → (handle_login hmac s w r).set_cookie ≡ some (create_session_token hmac s.auth_secret w.now)
  unfolding handle_login login_with
  handle_login-set_cookie s w r p m j q =
      rw
        (
          m,
          bytes_eq_refl (codes "POST"),
          bytes_eq_ne s.password [] p,
          j,
          q,
          bytes_eq_refl s.password,
        )
        refl

  -- A login by POST with the server's password in JSON sets a cookie, and any request with this
  -- cookie, at a clock that has not gone back, is let in as long as the session has not expired.
  -- The server has a password, HMAC yields bytes, and the time in seconds fits into 64 bits.
  pub handle_login-is_authenticated :
      (s : Server) (w later : World) (r next : Request)
      → ((m : Bytes) → IsBytes (hmac s.auth_secret m))
      → w.now / second < int_limit
      → s.password ≢ []
      → r.method ≡ codes "POST"
      → contains r.content_type (codes "application/json") ≡ true
      → r.json_password ≡ some s.password
      → next.cookie ≡ (handle_login hmac s w r).set_cookie
      → w.now ≤ later.since_now
      → w.now ≤ later.until_now
      → later.since_now ≤ w.now / second * second + session_duration
      → is_authenticated hmac s later next ≡ true
  unfolding handle_login is_authenticated has_session
  handle_login-is_authenticated s w later r next h fits p m j q c since until live =
      rw
        (
          bytes_eq_ne s.password [] p,
          c ∙ handle_login-set_cookie s w r p m j q,
          create_session_token-ne_nil s.auth_secret w.now,
          validate-create hmac s.auth_secret w.now later.since_now later.until_now h fits since
              until,
        )
        (ground arith)
