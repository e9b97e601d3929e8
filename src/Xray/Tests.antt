-- ===== src/Xray/Tests.antt =====
-- The theorems on the embedded core, each at one configuration and one core.
use xray_vless_ws_go.Base.{
  ℕ, zero, suc, false, [], ◌∷◌, none, some, Bytes, codes, Result, ok, arith,
}
use xray_vless_ws_go.Text.Decimal.{pos}
use xray_vless_ws_go.Config.{Config, SniEntry, InboundAddr}
use xray_vless_ws_go.LinkGen.Links.{tunnel_host_info, link_mode, tls_link, no_tls_link}
use xray_vless_ws_go.Xray.Json.{Json}
use xray_vless_ws_go.Xray.BuildConfig.{inbound}
use xray_vless_ws_go.Xray.BuildConfig.Reader.{read_inbound}
use xray_vless_ws_go.Xray.BuildConfig.Agreement.{LeadsTo, links-LeadsTo}
use xray_vless_ws_go.Xray.Engine.{returned, Core}

abbrev entry : SniEntry
entry = record { sni = codes "a.b"; remark = codes "My Node" }

abbrev local : InboundAddr
local = record { listen_ip = codes "127.0.0.1"; port = pos 8080 }

abbrev cfg : Config
cfg = record {
  raw_port = codes "8080";
  ports = local ∷ [];
  target_ip = codes "127.0.0.1";
  target_port = pos 8080;
  xray_uuid = codes "u";
  raw_fake_sni = codes "a.b#My Node";
  fake_sni = entry ∷ [];
  ws_path = codes "/a b";
  ws_host = codes "trycloudflare.com";
  transport = codes "ws";
  xhttp_mode = codes "auto";
  webhook_url = [];
  tunnel_token = [];
  debug_mode = false;
  log_password = codes "p";
  cloudflare_api_token = [];
  cloudflare_account_id = [];
  domain = [];
  worker_password = codes "w";
}

abbrev marshal_indent : Json → Result Bytes Bytes
marshal_indent j = ok (codes "{}")

links-LeadsTo_example :
    LeadsTo (tls_link cfg (codes "u") (codes "x.y") entry) (read_inbound (inbound cfg local))
    × LeadsTo (no_tls_link cfg (codes "u") (codes "x.y") entry) (read_inbound (inbound cfg local))
unfolding tunnel_host_info link_mode
links-LeadsTo_example = links-LeadsTo cfg (codes "x.y") entry local (record {
  user_plain = ground arith;
  address_plain = ground arith;
  host_plain = ground arith;
  mode_plain = ground arith;
  are_bytes = ground arith;
})

-- A core whose state is the number of its calls of Close, the second of which fails.
abbrev core : Core ℕ Unit Unit Unit
core = record {
  register_handler = λ s. s;
  start_instance = λ config s. (returned (ok tt), s);
  stats_manager = λ i s. (returned (some tt), s);
  get_or_register_counter = λ m name s. (returned (ok tt), s);
  value = λ c s. pos s;
  close_instance = λ i s. (elim s [ zero ↦ none | suc n ↦ some (codes "already closed") ], suc s);
}
