-- ===== src/Tunnel/Hostname.antt =====
-- internal/tunnel/hostname.go. Each regular expression is a matcher at a position; the classes in
-- them leave no choice, so the leftmost match is the only one at its position.
pub mod Laws
pub mod Stream
use xray_vless_ws_go.Base.{
  ℕ, zero, suc, ◌+◌, ◌-◌, ◌≡◌, refl, Bool, true, false, not, ◌&&◌, ◌||◌, List, [], ◌∷◌, ◌++◌,
  Option, none, some, Bytes, codes, bytes_eq, leb, ◌==◌, if◌then◌else◌, drop, length,
}
use xray_vless_ws_go.Text.Search.{has_prefix, contains}

-- `[0-9;]*[mK]`, with the number of bytes matched so far.
unfoldable pub match_params : Bytes → ℕ → Option ℕ
match_params [] n = none
match_params (c ∷ s) n =
    let more = match_params s (suc n) in
    if (leb b'0' c && leb c b'9') || c == b';'
    then more
    else if c == b'm' || c == b'K'
    then some (suc n)
    else none

-- `\x1b\[[0-9;]*[mK]` at the front of a text: the length of the match.
unfoldable pub match_ansi : Bytes → Option ℕ
unfolding match_params
match_ansi [] = none
match_ansi (c ∷ []) = none
match_ansi (c ∷ d ∷ s) = if c == 27 && d == b'[' then match_params s 2 else none

-- ReplaceAllString with the empty text; `skip` bytes still belong to the last match.
unfoldable pub strip_from : ℕ → Bytes → Bytes
unfolding match_ansi
strip_from skip [] = []
strip_from (suc skip) (c ∷ s) = strip_from skip s
strip_from zero (c ∷ s) = elim (match_ansi (c ∷ s)) [
  | none ↦ c ∷ strip_from zero s
  | some n ↦ strip_from (n - 1) s
]

unfoldable pub strip_ansi : Bytes → Bytes
unfolding strip_from
strip_ansi line = strip_from zero line

-- `[a-zA-Z0-9-]`.
unfoldable pub is_label_byte : ℕ → Bool
is_label_byte c =
    (leb b'a' c && leb c b'z')
    || (leb b'A' c && leb c b'Z')
    || (leb b'0' c && leb c b'9')
    || c == b'-'

-- The longest run of label bytes, and what stands behind it.
unfoldable pub label_run : Bytes → Bytes × Bytes
unfolding is_label_byte
label_run [] = ([], [])
label_run (c ∷ s) =
    let rest : Bytes × Bytes = (c ∷ (label_run s).0, (label_run s).1) in
    if is_label_byte c then rest else ([], c ∷ s)

abbrev pub scheme : Bytes
scheme = codes "https://"

abbrev pub tunnel_domain : Bytes
tunnel_domain = codes ".trycloudflare.com"

unfoldable pub host_of : Bytes × Bytes → Option Bytes
host_of (label, rest) =
    if not (bytes_eq label []) && has_prefix rest tunnel_domain
    then some (label ++ tunnel_domain)
    else none

-- `https://[a-zA-Z0-9-]+\.trycloudflare\.com` at the front, without the scheme.
unfoldable pub match_url : Bytes → Option Bytes
unfolding label_run host_of
match_url s = if has_prefix s scheme then host_of (label_run (drop 8 s)) else none

-- FindString, and `match[len("https://"):]`.
unfoldable pub find_url : Bytes → Option Bytes
unfolding match_url
find_url [] = none
find_url (c ∷ s) = elim (match_url (c ∷ s)) [ some host ↦ some host | none ↦ find_url s ]

unfoldable pub is_banner : Bytes → Bool
is_banner line = contains line (codes "Your quick Tunnel has been created!")

pub record HostnameParser : Type 0 where
  pub saw_banner : Bool

unfoldable pub new_hostname_parser : HostnameParser
new_hostname_parser = record { saw_banner = false }

unfoldable pub found_in : HostnameParser → Option Bytes → HostnameParser × Option Bytes
found_in p none = (p, none)
found_in p (some host) = (record { saw_banner = false }, some host)

unfoldable pub feed : HostnameParser → Bytes → HostnameParser × Option Bytes
unfolding is_banner found_in
feed p raw_line =
    let line = strip_ansi raw_line in
    if is_banner line
    then (record { saw_banner = true }, none)
    else if not p.saw_banner
    then (p, none)
    else found_in p (find_url line)

strips_colour : strip_ansi (27 ∷ codes "[1;32mok" ++ 27 ∷ codes "[0m!") ≡ codes "ok!"
unfolding strip_ansi
strips_colour = refl

finds_host :
    find_url (codes "|  https://a-b.trycloudflare.com  |") ≡ some (codes "a-b.trycloudflare.com")
unfolding find_url has_prefix bytes_eq
finds_host = refl
