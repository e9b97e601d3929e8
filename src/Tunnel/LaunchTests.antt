-- ===== src/Tunnel/LaunchTests.antt =====
-- The theorems on a launch, each at one configuration and system.
use xray_vless_ws_go.Base.{All, ◌≡◌, false, [], ◌∷◌, ◌++◌, none, some, Bytes, codes, ok}
use xray_vless_ws_go.Text.Decimal.{pos}
use xray_vless_ws_go.Config.{Config}
use xray_vless_ws_go.Tunnel.Launch.Process.{System, launch}
use xray_vless_ws_go.Tunnel.Launch.Laws.{Settles, launch-Settles, Carries, seen, launch-token}

abbrev cfg : Config
cfg = record {
  raw_port = [];
  ports = [];
  target_ip = codes "127.0.0.1";
  target_port = pos 8888;
  xray_uuid = codes "u";
  raw_fake_sni = [];
  fake_sni = [];
  ws_path = codes "/p";
  ws_host = codes "a.example.com";
  transport = codes "xhttp";
  xhttp_mode = codes "auto";
  webhook_url = [];
  tunnel_token = codes "secret";
  debug_mode = false;
  log_password = [];
  cloudflare_api_token = [];
  cloudflare_account_id = [];
  domain = [];
  worker_password = [];
}

abbrev system : System
system = record {
  free_port = ok (pos 4000);
  write_error = none;
  pipe_error = none;
  start_error = some (codes "no such file");
  join_path = λ dir name. dir ++ (codes "/" ++ name);
}

launch-Settles_example : Settles (launch system cfg (codes "cloudflared") (codes "/srv"))
launch-Settles_example = launch-Settles system cfg (codes "cloudflared") (codes "/srv")

launch-token_example :
    All (Carries cfg.tunnel_token) (launch system cfg (codes "cloudflared") (codes "/srv")).1
    × (seen (launch system cfg (codes "cloudflared") (codes "/srv"))
        ≡ seen (
            launch system
              (record cfg { tunnel_token = codes "other" })
              (codes "cloudflared")
              (codes "/srv")))
launch-token_example =
    launch-token system cfg (codes "cloudflared") (codes "/srv") (codes "other")
      (λ h. absurd (cons_ne h)) (λ h. absurd (cons_ne h))
  where
    cons_ne : {x : _} {xs : Bytes} → ◌≡◌ {A = Bytes} (x ∷ xs) [] → ⊥
    cons_ne h = cc
