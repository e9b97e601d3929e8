-- ===== src/LogServer/Server/Routes.antt =====
-- internal/logserver/server.go: the routes of `Start`.
use xray_vless_ws_go.Base.{◌||◌, Option, Bytes, codes, bytes_eq, if◌then◌else◌}
use xray_vless_ws_go.LogServer.Server.{
  Request, Server, World, Response, static_file, plain, handle_login, handle_logout,
  handle_auth_status, with_auth,
}
use xray_vless_ws_go.LogServer.Server.Content.{
  handle_subscription, handle_logs, handle_stats, handle_vless_info,
}

module _ (hmac : Bytes → Bytes → Bytes) (unmarshal : Bytes → Option (Bytes → Option Bytes)) where
  unfoldable pub serve_open : Server → World → Request → Response
  unfolding plain
  serve_open s w r =
      if bytes_eq r.path (codes "/api/login")
      then handle_login hmac s w r
      else if bytes_eq r.path (codes "/api/logout")
      then handle_logout
      else if bytes_eq r.path (codes "/api/auth-status")
      then handle_auth_status hmac s w r
      else if bytes_eq r.path (codes "/sub") || bytes_eq r.path (codes "/subscription")
      then handle_subscription s w r
      else plain 200 static_file

  unfoldable pub serve : Server → World → Request → Response
  unfolding serve_open
  serve s w r =
      if bytes_eq r.path (codes "/logs")
      then with_auth hmac s w r (handle_logs s r)
      else if bytes_eq r.path (codes "/stats")
      then with_auth hmac s w r (handle_stats s w)
      else if bytes_eq r.path (codes "/api/vless-info")
      then with_auth hmac s w r (handle_vless_info unmarshal s w)
      else serve_open s w r
