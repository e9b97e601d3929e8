-- ===== src/Tunnel/Hostname/Stream.antt =====
-- What the parser reports from a stream of lines.
use xray_vless_ws_go.Base.{
  ◌≡◌, refl, ap, true, false, List, [], ◌∷◌, ◌++◌, Option, none, some, Bytes, All,
}
use xray_vless_ws_go.Tunnel.Hostname.{
  strip_ansi, find_url, is_banner, HostnameParser, new_hostname_parser, found_in, feed,
}

-- The lines of a stream in turn, with what each one reports.
unfoldable pub feed_all : HostnameParser → List Bytes → List (Option Bytes)
feed_all p [] = []
feed_all p (raw ∷ lines) = let (q, found) = feed p raw in found ∷ feed_all q lines

abbrev pub silent : List Bytes → List (Option Bytes)
silent [] = []
silent (_ ∷ lines) = none ∷ silent lines

pub feed_unarmed :
    (raw : Bytes)
    → is_banner (strip_ansi raw) ≡ false
    → feed (record { saw_banner = false }) raw ≡ (record { saw_banner = false }, none)
unfolding feed
feed_unarmed raw h = rw h

-- A stream without a banner reports nothing, whatever URLs it holds.
feed_all_no_banner :
    (lines : List Bytes)
    → All (λ raw. is_banner (strip_ansi raw) ≡ false) lines
    → feed_all new_hostname_parser lines ≡ silent lines
unfolding feed_all new_hostname_parser
feed_all_no_banner [] h = refl
feed_all_no_banner (raw ∷ lines) (b, h) =
    rw (feed_unarmed raw b)
      (ap (◌∷◌ none) (unfold new_hostname_parser in feed_all_no_banner lines h))

-- A line that is no banner and holds no URL of a tunnel.
abbrev pub IsQuiet : Bytes → Type 0
IsQuiet raw = (is_banner (strip_ansi raw) ≡ false) × (find_url (strip_ansi raw) ≡ none)

feed_quiet :
    (raw : Bytes)
    → IsQuiet raw
    → feed (record { saw_banner = true }) raw ≡ (record { saw_banner = true }, none)
unfolding feed found_in
feed_quiet raw (b, u) = rw (b, u, found_in)

pub feed_url :
    (raw host : Bytes)
    → is_banner (strip_ansi raw) ≡ false
    → find_url (strip_ansi raw) ≡ some host
    → feed (record { saw_banner = true }) raw ≡ (record { saw_banner = false }, some host)
unfolding feed found_in
feed_url raw host b u = rw (b, u, found_in)

pub feed_banner :
    (p : HostnameParser) (raw : Bytes)
    → is_banner (strip_ansi raw) ≡ true
    → feed p raw ≡ (record { saw_banner = true }, none)
unfolding feed
feed_banner p raw b = rw b

feed_all_armed :
    (quiet : List Bytes) (raw host : Bytes)
    → All IsQuiet quiet
    → is_banner (strip_ansi raw) ≡ false
    → find_url (strip_ansi raw) ≡ some host
    → feed_all (record { saw_banner = true }) (quiet ++ raw ∷ []) ≡ silent quiet ++ some host ∷ []
unfolding feed_all
feed_all_armed [] raw host h b u = rw (feed_url raw host b u)
feed_all_armed (q ∷ quiet) raw host (hq, h) b u =
    rw (feed_quiet q hq) (ap (◌∷◌ none) (feed_all_armed quiet raw host h b u))

-- Behind a banner the first line with a URL is reported, whatever number of other lines stands
-- between the two, and nothing is reported before it.
pub feed_all_after_banner :
    (p : HostnameParser) (banner : Bytes) (quiet : List Bytes) (raw host : Bytes)
    → is_banner (strip_ansi banner) ≡ true
    → All IsQuiet quiet
    → is_banner (strip_ansi raw) ≡ false
    → find_url (strip_ansi raw) ≡ some host
    → feed_all p (banner ∷ (quiet ++ raw ∷ [])) ≡ none ∷ (silent quiet ++ some host ∷ [])
unfolding feed_all
feed_all_after_banner p banner quiet raw host s h b u =
    rw (feed_banner p banner s) (ap (◌∷◌ none) (feed_all_armed quiet raw host h b u))
