-- ===== src/Config/Sni.antt =====
-- internal/config/sni.go.
pub mod Laws
use xray_vless_ws_go.Base.{
  ℕ, suc, ◌+◌, ◌≡◌, refl, Bool, true, false, List, [], ◌∷◌, ◌++◌, Option, none, some, Bytes, codes,
  bytes_eq, if◌then◌else◌, Result, ok, err, ◌>>=◌,
}
use xray_vless_ws_go.Text.Trim.{trim_space}
use xray_vless_ws_go.Text.Split.{split, cut}
use xray_vless_ws_go.Text.Decimal.{itoa}
use xray_vless_ws_go.Config.{SniEntry, ConfigError, sni_empty, sni_entry_empty, sni_no_entries}

-- "Tunnel %d" of the position counted from 1.
unfoldable pub default_remark : ℕ → Bytes
default_remark idx = codes "Tunnel " ++ itoa (idx + 1)

-- The two branches on the `#`: without one, and with what stands before and behind the first.
unfoldable pub named_by : ℕ → Bytes → Option (Bytes × Bytes) → Bytes × Bytes
named_by idx item none = (item, default_remark idx)
named_by idx item (some (a, b)) =
    let remark = trim_space b in
    (trim_space a, if bytes_eq remark [] then default_remark idx else remark)

-- The name and the remark of one trimmed, non-empty item.
unfoldable pub sni_and_remark : ℕ → Bytes → Bytes × Bytes
unfolding named_by
sni_and_remark idx item = named_by idx item (cut b'#' item)

-- An item with no name is an error.
unfoldable pub require_name : Bytes → Bytes × Bytes → Result ConfigError SniEntry
require_name item (sni, remark) =
    if bytes_eq sni []
    then err (sni_entry_empty item)
    else ok (record { sni = sni; remark = remark })

unfoldable pub parse_entry : ℕ → Bytes → Result ConfigError SniEntry
unfolding sni_and_remark require_name
parse_entry idx item = require_name item (sni_and_remark idx item)

-- The loop over the items, from the index `idx` on.
unfoldable pub parse_entries : ℕ → List Bytes → Result ConfigError (List SniEntry)
parse_entries idx [] = ok []
parse_entries idx (part ∷ parts) =
    let item = trim_space part in
    let rest = parse_entries (suc idx) parts in
    if bytes_eq item []
    then rest
    else do entry ← parse_entry idx item; entries ← rest; ok (entry ∷ entries)

abbrev pub require_entries : Bytes → List SniEntry → Result ConfigError (List SniEntry)
require_entries raw [] = err (sni_no_entries raw)
require_entries raw (e ∷ es) = ok (e ∷ es)

unfoldable pub parse_sni_list : Bytes → Result ConfigError (List SniEntry)
unfolding parse_entries
parse_sni_list raw₀ =
    let raw = trim_space raw₀ in
    if bytes_eq raw []
    then err sni_empty
    else do out ← parse_entries 0 (split b',' raw); require_entries raw out

numbers_count_blanks :
    parse_sni_list (codes "a#x, ,b")
    ≡ ok (
        record { sni = codes "a"; remark = codes "x" }
        ∷ record { sni = codes "b"; remark = codes "Tunnel 3" }
        ∷ [])
unfolding parse_sni_list parse_entry default_remark trim_space split cut bytes_eq itoa
numbers_count_blanks = refl
