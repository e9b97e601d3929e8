-- ===== src/Tunnel/Fake.antt =====
-- internal/tunnel/testdata/fakecloudflared/main.go, the program that stands for cloudflared in the
-- tests of the supervisor: what it prints, and what it answers to /ready. Its flags, its sleeps and its
-- exit are left out.
use xray_vless_ws_go.Base.{
  ℕ, zero, ◌≡◌, ◌≢◌, refl, ap, ◌∙◌, Bool, true, false, List, [], ◌∷◌, ◌++◌, none, some, Bytes,
  codes, if◌then◌else◌, All, All-append, arith,
}
use xray_vless_ws_go.Text.Search.{has_prefix, contains}
use xray_vless_ws_go.Text.Decimal.{pos}
use xray_vless_ws_go.Text.Split.Laws.{Lacks}
use xray_vless_ws_go.Tunnel.Hostname.{
  is_label_byte, scheme, tunnel_domain, match_ansi, strip_from, strip_ansi, find_url, is_banner,
  feed, new_hostname_parser,
}
use xray_vless_ws_go.Tunnel.Hostname.Laws.{find_url_complete}
use xray_vless_ws_go.Tunnel.Hostname.Stream.{feed_all, feed_url, feed_unarmed, feed_banner}
use xray_vless_ws_go.Tunnel.Lines.{stream_lines, reported, stream_from-feed_all, stream_from-named}
use xray_vless_ws_go.Tunnel.Watch.{PollReply, answered, poll_ready_once}

-- The line with the URL of the tunnel.
abbrev pub fake_url : Bytes → Bytes
fake_url subdomain =
    codes "INF |  "
    ++ (scheme ++ (subdomain ++ (tunnel_domain ++ codes "                                   |")))

abbrev pub fake_rule : Bytes
fake_rule = codes "INF +--------------------------------------------------------------+"

abbrev pub fake_banner : Bytes
fake_banner = codes "INF |  Your quick Tunnel has been created! Visit it at:             |"

abbrev pub fake_request : Bytes
fake_request = codes "INF Requesting new quick Tunnel on trycloudflare.com..."

-- The lines of a quick tunnel with this subdomain, or of a named one.
unfoldable pub fake_lines : Bool → Bytes → List Bytes
fake_lines true subdomain =
    fake_request ∷ fake_rule ∷ fake_banner ∷ fake_url subdomain ∷ fake_rule ∷ []
fake_lines false subdomain = codes "INF Registered tunnel connection" ∷ []

-- The status, and the number of connections in the body.
unfoldable pub fake_ready : Bool → PollReply
fake_ready ready = answered (if ready then 200 else 503) (some (pos (if ready then 1 else 0)))

no_match : (c : ℕ) (s : Bytes) → c ≢ 27 → match_ansi (c ∷ s) ≡ none
unfolding match_ansi
no_match c [] h = refl
no_match c (d ∷ s) h = ground (arith, h)

strip_from-Lacks : (s : Bytes) → Lacks 27 s → strip_from zero s ≡ s
unfolding strip_from
strip_from-Lacks [] h = refl
strip_from-Lacks (c ∷ s) (hc, h) =
    rw (no_match c s hc, strip_from) (ap (◌∷◌ c) (strip_from-Lacks s h))

-- A text without an escape is left as it is.
strip_ansi-Lacks : (s : Bytes) → Lacks 27 s → strip_ansi s ≡ s
unfolding strip_ansi
strip_ansi-Lacks s h = strip_from-Lacks s h

-- A text without an exclamation mark does not hold the banner's, which ends in one.
has_prefix-Lacks : (s p : Bytes) → Lacks b'!' s → has_prefix s (p ++ b'!' ∷ []) ≡ false
unfolding has_prefix
has_prefix-Lacks [] [] h = refl
has_prefix-Lacks [] (d ∷ p) h = refl
has_prefix-Lacks (c ∷ s) [] (hc, h) = ground (arith, hc)
has_prefix-Lacks (c ∷ s) (d ∷ p) (hc, h) = ground (arith, has_prefix-Lacks s p h)

contains-Lacks : (s p : Bytes) → Lacks b'!' s → contains s (p ++ b'!' ∷ []) ≡ false
unfolding contains
contains-Lacks [] p h = has_prefix-Lacks [] p tt
contains-Lacks (c ∷ s) p (hc, h) =
    rw (has_prefix-Lacks (c ∷ s) p (hc, h), contains-Lacks s p h) refl

label-Lacks :
    (b : ℕ) (s : Bytes) → is_label_byte b ≡ false → All (λ c. is_label_byte c ≡ true) s → Lacks b s
label-Lacks b [] h l = tt
label-Lacks b (c ∷ s) h (lc, l) = (λ e. cc (rw e at lc), label-Lacks b s h l)

module _ (subdomain : Bytes) (label : All (λ c. is_label_byte c ≡ true) subdomain) where
  fake_url-Lacks :
      (b : ℕ)
      → is_label_byte b ≡ false
      → Lacks b (codes "INF |  https://")
      → Lacks b (tunnel_domain ++ codes "                                   |")
      → Lacks b (fake_url subdomain)
  fake_url-Lacks b h before after =
      All-append (λ c. c ≢ b) (codes "INF |  https://") _ before
        (All-append (λ c. c ≢ b) subdomain _ (label-Lacks b subdomain h label) after)

  fake_url-strip_ansi : strip_ansi (fake_url subdomain) ≡ fake_url subdomain
  fake_url-strip_ansi =
      strip_ansi-Lacks (fake_url subdomain)
        (fake_url-Lacks 27 (unfold is_label_byte in refl) (omega arith) (omega arith))

  fake_url-is_banner : is_banner (strip_ansi (fake_url subdomain)) ≡ false
  unfolding is_banner
  fake_url-is_banner =
      ap (λ (s : Bytes). contains s (codes "Your quick Tunnel has been created!"))
        fake_url-strip_ansi
      ∙ contains-Lacks (fake_url subdomain) (codes "Your quick Tunnel has been created")
          (fake_url-Lacks b'!' (unfold is_label_byte in refl) (omega arith) (omega arith))

  fake_url-find_url :
      subdomain ≢ []
      → find_url (strip_ansi (fake_url subdomain)) ≡ some (subdomain ++ tunnel_domain)
  fake_url-find_url n =
      ap find_url fake_url-strip_ansi
      ∙ find_url_complete (codes "INF |  ") subdomain _ (omega arith) n label

fake_rule_quiet :
    feed (record { saw_banner = false }) fake_rule ≡ (record { saw_banner = false }, none)
fake_rule_quiet =
    feed_unarmed fake_rule (unfold is_banner contains has_prefix strip_ansi match_ansi in refl)

-- The parser takes the double's lines as cloudflared's.
fake_lines-feed_all :
    (subdomain : Bytes)
    → All (λ c. is_label_byte c ≡ true) subdomain
    → subdomain ≢ []
    → feed_all new_hostname_parser (fake_lines true subdomain)
      ≡ none ∷ none ∷ none ∷ some (subdomain ++ tunnel_domain) ∷ none ∷ []
unfolding feed_all new_hostname_parser fake_lines
fake_lines-feed_all subdomain label n =
    rw
      (
        feed_unarmed fake_request
            (unfold is_banner contains has_prefix strip_ansi match_ansi in refl),
        fake_rule_quiet,
        feed_banner (record { saw_banner = false }) fake_banner
            (unfold is_banner contains has_prefix strip_ansi match_ansi in refl),
        feed_url (fake_url subdomain) (subdomain ++ tunnel_domain)
            (fake_url-is_banner subdomain label) (fake_url-find_url subdomain label n),
        fake_rule_quiet,
      )
      refl

-- Where the subdomain is a label of a host name: the supervisor reports the hostname of a quick tunnel
-- of the double exactly once and none of a named one, and takes it to be ready exactly where the
-- double says so.
fake_lines-reported :
    (subdomain : Bytes) (ready : Bool)
    → All (λ c. is_label_byte c ≡ true) subdomain
    → subdomain ≢ []
    → ((stream_lines false (fake_lines true subdomain)).1 ≡ (subdomain ++ tunnel_domain) ∷ [])
      × ((stream_lines true (fake_lines false subdomain)).1 ≡ [])
      × ((poll_ready_once (fake_ready ready)).ready ≡ ready)
unfolding stream_lines
fake_lines-reported subdomain ready label n = (
  stream_from-feed_all new_hostname_parser (fake_lines true subdomain)
      ∙ ap reported (fake_lines-feed_all subdomain label n),
  stream_from-named new_hostname_parser (fake_lines false subdomain),
  is_ready ready,
)
  where
    is_ready : (ready : Bool) → (poll_ready_once (fake_ready ready)).ready ≡ ready
    is_ready true = unfold poll_ready_once fake_ready in refl
    is_ready false = unfold poll_ready_once fake_ready in refl
