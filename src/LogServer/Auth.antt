-- ===== src/LogServer/Auth.antt =====
-- internal/logserver/auth.go. Times are clock readings in nanoseconds since 1970. HMAC-SHA256 is an
-- argument, `hmac`, of the secret and the message.
pub mod Sessions
use xray_vless_ws_go.Base.{
  ℕ, suc, ◌+◌, ◌-◌, ◌*◌, ◌/◌, ◌^◌, ◌≡◌, refl, Bool, true, false, not, ◌&&◌, ◌||◌, List, [], ◌∷◌,
  ◌++◌, Option, none, some, Bytes, codes, bytes_eq, ltb, leb, if◌then◌else◌,
}
use xray_vless_ws_go.Text.Decimal.{ℤ, pos, negsuc, itoa, atoi}
use xray_vless_ws_go.Text.Split.{split}
use xray_vless_ws_go.Config.Random.{encode_hex}

abbrev pub second : ℕ
second = 1000000000

-- 7 * 24 hours.
abbrev pub session_duration : ℕ
session_duration = 604800 * second

abbrev pub clock_skew : ℕ
clock_skew = 600 * second

unfoldable pub hex_value : ℕ → Option ℕ
hex_value c =
    if leb b'0' c && leb c b'9'
    then some (c - b'0')
    else if leb b'a' c && leb c b'f'
    then some (c - b'a' + 10)
    else if leb b'A' c && leb c b'F'
    then some (c - b'A' + 10)
    else none

abbrev hex_byte : Option ℕ → Option ℕ → Option Bytes → Option Bytes
hex_byte (some h) (some l) (some s) = some ((h * 16 + l) ∷ s)
hex_byte _ _ _ = none

-- hex.DecodeString: an even number of digits in either case.
unfoldable pub decode_hex : Bytes → Option Bytes
unfolding hex_value
decode_hex [] = some []
decode_hex (h ∷ []) = none
decode_hex (h ∷ l ∷ s) = hex_byte (hex_value h) (hex_value l) (decode_hex s)

-- `time.Since(t) > sessionDuration || time.Until(t) > 10*time.Minute` at the two clock readings. A
-- reading saturates, so an out-of-range timestamp is as far off as these whole numbers say.
unfoldable pub is_stale : ℤ → ℕ → ℕ → Bool
is_stale (pos ts) since_now until_now =
    ltb (ts * second + session_duration) since_now || ltb (until_now + clock_skew) (ts * second)
is_stale (negsuc ts) since_now until_now = ltb session_duration (since_now + suc ts * second)

module _ (hmac : Bytes → Bytes → Bytes) where
  -- "<unix_sec>.<hmac_hex>".
  unfoldable pub create_session_token : Bytes → ℕ → Bytes
  create_session_token secret now =
      let payload = itoa (now / second) in payload ++ b'.' ∷ encode_hex (hmac secret payload)

  -- subtle.ConstantTimeCompare of the expected and the decoded signature.
  unfoldable pub has_signature : Bytes → Bytes → Option Bytes → Bool
  has_signature secret ts_str none = false
  has_signature secret ts_str (some sig) = bytes_eq (hmac secret ts_str) sig

  unfoldable pub is_live_and_signed : Bytes → ℕ → ℕ → Bytes → Bytes → Option ℤ → Bool
  unfolding is_stale has_signature
  is_live_and_signed secret since_now until_now ts_str sig_hex none = false
  is_live_and_signed secret since_now until_now ts_str sig_hex (some ts) =
      if is_stale ts since_now until_now
      then false
      else has_signature secret ts_str (decode_hex sig_hex)

  -- `len(parts) != 2` refuses.
  unfoldable pub validate_parts : Bytes → ℕ → ℕ → List Bytes → Bool
  unfolding is_live_and_signed
  validate_parts secret since_now until_now (ts_str ∷ sig_hex ∷ []) =
      is_live_and_signed secret since_now until_now ts_str sig_hex (atoi ts_str)
  validate_parts secret since_now until_now _ = false

  unfoldable pub validate_session_token : Bytes → Bytes → ℕ → ℕ → Bool
  unfolding validate_parts
  validate_session_token token secret since_now until_now =
      validate_parts secret since_now until_now (split b'.' token)
