-- ===== src/Tunnel/Lines.antt =====
-- internal/tunnel/supervisor.go: `streamLines`, which logs every line of cloudflared, and reports the
-- hostnames that the parser finds in those of a quick tunnel.
use xray_vless_ws_go.Base.{
  ◌≡◌, refl, Bool, true, false, List, [], ◌∷◌, Option, none, some, Bytes, if◌then◌else◌,
}
use xray_vless_ws_go.Tunnel.Hostname.{strip_ansi, HostnameParser, new_hostname_parser, feed}
use xray_vless_ws_go.Tunnel.Hostname.Stream.{feed_all}

abbrev pub reported : List (Option Bytes) → List Bytes
reported [] = []
reported (none ∷ found) = reported found
reported (some host ∷ found) = host ∷ reported found

abbrev with_found : Option Bytes → List Bytes → List Bytes
with_found none hosts = hosts
with_found (some host) hosts = host ∷ hosts

-- What is logged, and what is given to OnHostname.
unfoldable pub stream_from : Bool → HostnameParser → List Bytes → List Bytes × List Bytes
unfolding strip_ansi feed
stream_from named p [] = ([], [])
stream_from named p (line ∷ lines) =
    let (q, found) = feed p line in
    let rest = stream_from named (if named then p else q) lines in
    (strip_ansi line ∷ rest.0, if named then rest.1 else with_found found rest.1)

unfoldable pub stream_lines : Bool → List Bytes → List Bytes × List Bytes
unfolding stream_from new_hostname_parser
stream_lines named lines = stream_from named new_hostname_parser lines

with_found-reported :
    (o : Option Bytes) (found : List (Option Bytes))
    → with_found o (reported found) ≡ reported (o ∷ found)
with_found-reported none found = refl
with_found-reported (some host) found = refl

-- The hostnames of a quick tunnel are those that the parser reports line by line.
pub stream_from-feed_all :
    (p : HostnameParser) (lines : List Bytes)
    → (stream_from false p lines).1 ≡ reported (feed_all p lines)
unfolding stream_from feed_all
stream_from-feed_all p [] = refl
stream_from-feed_all p (line ∷ lines) =
    rw (stream_from-feed_all (feed p line).0 lines)
      (with_found-reported (feed p line).1 (feed_all (feed p line).0 lines))

-- A named tunnel reports none.
pub stream_from-named :
    (p : HostnameParser) (lines : List Bytes) → (stream_from true p lines).1 ≡ []
unfolding stream_from
stream_from-named p [] = refl
stream_from-named p (line ∷ lines) = stream_from-named p lines
