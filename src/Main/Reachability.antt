-- ===== src/Main/Reachability.antt =====
-- From the environment to the listening socket: what internal/config loads, internal/linkgen,
-- internal/tunnel and internal/xraycore make the two ends of one connection of.
use xray_vless_ws_go.Base.{
  ◌≡◌, refl, sym, ap, ◌∙◌, subst, ◌⊎◌, inl, inr, List, [], ◌∷◌, ◌++◌, Option, none, some, Bytes,
  codes, bytes_eq, bytes_eq_sound, concat, if◌then◌else◌, Bool-cases, Result, ok, All, arith,
  append_assoc, append-nil, IsBytes, map,
}
use xray_vless_ws_go.Text.Decimal.{ℤ, format_int}
use xray_vless_ws_go.Text.Split.Laws.{Lacks}
use xray_vless_ws_go.Config.{Config, SniEntry, InboundAddr}
use xray_vless_ws_go.Config.Ports.{tunnel_target}
use xray_vless_ws_go.Config.Env.{Environ, Draws, from_env}
use xray_vless_ws_go.Config.Env.Laws.{IsValid, from_env-IsValid}
use xray_vless_ws_go.LinkGen.Links.{tunnel_host_info, link_mode, links_of, build_links}
use xray_vless_ws_go.LinkGen.Links.Targets.{IsLinkable}
use xray_vless_ws_go.LinkGen.Links.Laws.{Links, build_links-Links}
use xray_vless_ws_go.Tunnel.Launch.{
  LaunchPlan, launch_plan, quick_plan, named_plan, named_tunnel_config,
}
use xray_vless_ws_go.Xray.Json.{Json}
use xray_vless_ws_go.Xray.BuildConfig.{xray_config, build_config, marshaled, require_ports}
use xray_vless_ws_go.Xray.BuildConfig.Reader.{Inbound, read_inbounds}
use xray_vless_ws_go.Xray.BuildConfig.Laws.{
  target_inbound, read_inbound-inbound, read_inbounds-xray_config,
}
use xray_vless_ws_go.Xray.BuildConfig.Agreement.{LeadsTo, links-LeadsTo}

-- The address of the server that cloudflared forwards to.
abbrev pub origin : Config → Bytes
origin cfg = concat (codes "http://" ∷ cfg.target_ip ∷ codes ":" ∷ format_int cfg.target_port ∷ [])

-- The argument behind a flag.
abbrev pub flag : Bytes → List Bytes → Option Bytes
flag name [] = none
flag name (x ∷ []) = none
flag name (x ∷ y ∷ args) = if bytes_eq x name then some y else flag name (y ∷ args)

-- cloudflared is told the address on its command line, or in a line of its config file.
abbrev pub Forwards : LaunchPlan → Bytes → Type 0
Forwards plan url =
    (flag (codes "--url") plan.args ≡ some url)
    ⊎ ((before : Bytes) × (after : Bytes) × (plan.config_file
          ≡ some (before ++ (codes "\n    service: " ++ (url ++ (codes "\n" ++ after))))))

-- An inbound that a connection to this address and port comes to.
abbrev pub Hears : Inbound → Bytes → ℤ → Type 0
Hears v ip port =
    (v.port ≡ port) × ((v.listen ≡ ip) ⊎ (v.listen ≡ codes "0.0.0.0") × (ip ≡ codes "127.0.0.1"))

-- The links, the tunnel and the first inbound of xray-core agree.
pub record Connects (cfg : Config) (host path metrics : Bytes) (v : Inbound) : Type 0 where
  pub is_built :
      (marshal_indent : Json → Result Bytes Bytes)
      → build_config marshal_indent (some cfg)
        ≡ marshaled marshal_indent (marshal_indent (xray_config cfg))
  pub is_first : (vs : List Inbound) × (read_inbounds (xray_config cfg) ≡ some (v ∷ vs))
  pub hears : Hears v cfg.target_ip cfg.target_port
  pub forwards : Forwards (launch_plan cfg path metrics) (origin cfg)
  pub leads : All (λ l. LeadsTo l (some v)) (build_links cfg cfg.xray_uuid host)
  pub offers : Links cfg cfg.xray_uuid host cfg.fake_sni (build_links cfg cfg.xray_uuid host)

-- The values that a link takes from the environment as they are hold none of its delimiters.
pub record IsPlain (cfg : Config) (host : Bytes) : Type 0 where
  pub user_plain : Lacks b'@' cfg.xray_uuid
  pub host_plain : Lacks b'&' (tunnel_host_info cfg host) × Lacks b'#' (tunnel_host_info cfg host)
  pub path_bytes : IsBytes cfg.ws_path
  pub entries_plain : All (λ (e : SniEntry). Lacks b':' e.sni × IsBytes e.remark) cfg.fake_sni

mode_plain : (cfg : Config) → IsValid cfg → Lacks b'&' (link_mode cfg) × Lacks b'#' (link_mode cfg)
unfolding link_mode
mode_plain cfg v = elim v.known_mode [
  | inl e ↦ rw e (unfold bytes_eq in omega arith)
  | inr (inl e) ↦ rw e (unfold bytes_eq in omega arith)
  | inr (inr (inl e)) ↦ rw e (unfold bytes_eq in omega arith)
  | inr (inr (inr (inl e))) ↦ rw e (unfold bytes_eq in omega arith)
  | inr (inr (inr (inr x))) ↦ absurd x
]

module _ (cfg : Config) (host : Bytes) (p : InboundAddr) (v : IsValid cfg)
    (plain : IsPlain cfg host) where
  entry-IsLinkable :
      (e : SniEntry) → Lacks b':' e.sni × IsBytes e.remark → IsLinkable cfg cfg.xray_uuid host e
  entry-IsLinkable e he = record {
    user_plain = plain.user_plain;
    address_plain = he.0;
    host_plain = plain.host_plain;
    mode_plain = mode_plain cfg v;
    are_bytes = (plain.path_bytes, he.1);
  }

  All-IsLinkable :
      (es : List SniEntry)
      → All (λ (e : SniEntry). Lacks b':' e.sni × IsBytes e.remark) es
      → All (IsLinkable cfg cfg.xray_uuid host) es
  All-IsLinkable [] h = tt
  All-IsLinkable (e ∷ es) (he, hes) = (entry-IsLinkable e he, All-IsLinkable es hes)

  links_of-LeadsTo :
      (es : List SniEntry)
      → All (λ (e : SniEntry). Lacks b':' e.sni × IsBytes e.remark) es
      → All (λ l. LeadsTo l (some (target_inbound cfg p))) (links_of cfg cfg.xray_uuid host es)
  unfolding links_of
  links_of-LeadsTo [] h = tt
  links_of-LeadsTo (e ∷ es) (he, hes) =
      let both = links-LeadsTo cfg host e p (entry-IsLinkable e he) in
      let read = read_inbound-inbound cfg p in
      (subst (LeadsTo _) read both.0, (subst (LeadsTo _) read both.1, links_of-LeadsTo es hes))

parts_same :
    {a c : Bytes} {b d : ℤ}
    → ◌≡◌ {A = Option (Bytes × ℤ)} (some (a, b)) (some (c, d))
    → (a ≡ c) × (b ≡ d)
parts_same h = (cc, cc)

target_inbound-Hears :
    (cfg : Config) (p : InboundAddr) (ps : List InboundAddr)
    → tunnel_target (p ∷ ps) ≡ some (cfg.target_ip, cfg.target_port)
    → Hears (target_inbound cfg p) cfg.target_ip cfg.target_port
unfolding tunnel_target
target_inbound-Hears cfg p ps h = elim (Bool-cases (bytes_eq p.listen_ip (codes "0.0.0.0"))) [
  | inl e ↦
      let same = parts_same (rw e at h) in
      (same.1, inr (bytes_eq_sound p.listen_ip (codes "0.0.0.0") e, sym same.0))
  | inr e ↦ let same = parts_same (rw e at h) in (same.1, inl same.0)
]

quick_plan-Forwards :
    (cfg : Config) (port : ℤ)
    → Forwards (quick_plan cfg (codes "127.0.0.1:" ++ format_int port)) (origin cfg)
unfolding quick_plan bytes_eq
quick_plan-Forwards cfg port = elim (Bool-cases (bytes_eq cfg.transport (codes "xhttp"))) [
  | inl e ↦ rw e (inl refl)
  | inr e ↦ rw e (inl refl)
]

named_plan-Forwards :
    (cfg : Config) (path metrics : Bytes) → Forwards (named_plan cfg path metrics) (origin cfg)
unfolding named_plan named_tunnel_config
named_plan-Forwards cfg path metrics = inr (
  codes "ingress:\n  - hostname: " ++ cfg.ws_host,
  concat (
      (if bytes_eq cfg.transport (codes "xhttp")
        then codes "    originRequest:\n      http2Origin: true\n"
        else [])
      ∷ codes "  - service: http_status:404\n"
      ∷ []),
  ap some (simp (append_assoc, append-nil)),
)

launch_plan-Forwards :
    (cfg : Config) (path : Bytes) (port : ℤ)
    → Forwards (launch_plan cfg path (codes "127.0.0.1:" ++ format_int port)) (origin cfg)
unfolding launch_plan
launch_plan-Forwards cfg path port = elim (Bool-cases (bytes_eq cfg.tunnel_token [])) [
  | inl e ↦ rw e (quick_plan-Forwards cfg port)
  | inr e ↦ rw e (named_plan-Forwards cfg path (codes "127.0.0.1:" ++ format_int port))
]

connects :
    (cfg : Config) (host path : Bytes) (port : ℤ) (ports : List InboundAddr)
    → cfg.ports ≡ ports
    → IsValid cfg
    → IsPlain cfg host
    → (v : Inbound) × Connects cfg host path (codes "127.0.0.1:" ++ format_int port) v
connects cfg host path port [] e v plain = absurd (v.has_ports e)
connects cfg host path port (p ∷ ps) e v plain = (
  target_inbound cfg p,
  record {
    is_built = λ marshal_indent.
        unfold build_config in
        ap
          (λ xs.
            require_ports marshal_indent xs
              (marshaled marshal_indent (marshal_indent (xray_config cfg))))
          e;
    is_first = (
      map (target_inbound cfg) ps,
      read_inbounds-xray_config cfg ∙ ap (λ xs. some (map (target_inbound cfg) xs)) e,
    );
    hears = target_inbound-Hears cfg p ps (ap tunnel_target (sym e) ∙ v.target);
    forwards = launch_plan-Forwards cfg path port;
    leads =
        unfold build_links in links_of-LeadsTo cfg host p v plain cfg.fake_sni plain.entries_plain;
    offers =
        build_links-Links cfg cfg.xray_uuid host
          (All-IsLinkable cfg host p v plain cfg.fake_sni plain.entries_plain);
  },
)

-- Whatever the environment, and where the values that a link takes unescaped hold none of its
-- delimiters, the ends of a connection agree in a configuration that loads: xray-core is given the tree
-- with an inbound that hears at the address to which cloudflared is told to forward, as a named tunnel
-- or a quick one; every link leads to that inbound, and has the address of its entry, port 443 or 80,
-- and WS_HOST or else the host of the tunnel. Ports are compared as the numbers that were read, also
-- where no socket takes them.
pub from_env-Connects :
    (env : Environ) (draws : Draws) (cfg : Config) (host path : Bytes) (port : ℤ)
    → from_env env draws ≡ some (ok cfg)
    → IsPlain cfg host
    → (v : Inbound) × Connects cfg host path (codes "127.0.0.1:" ++ format_int port) v
from_env-Connects env draws cfg host path port h plain =
    connects cfg host path port cfg.ports refl (from_env-IsValid env draws cfg h) plain
