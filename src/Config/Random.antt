-- ===== src/Config/Random.antt =====
-- internal/config/uuid.go and secret.go. What `rand.Read` yields is an argument: the bytes, or
-- `none` where it fails.
pub mod Digits
pub mod Laws
use xray_vless_ws_go.Base.{
  ℕ, zero, suc, ◌+◌, ◌-◌, ◌/◌, ◌%◌, ◌≡◌, refl, [], ◌∷◌, ◌++◌, Option, none, some, Bytes, codes, ltb,
  if◌then◌else◌, take, drop, set, get_or,
}

-- A digit of `%x` and of `hex.EncodeToString`.
unfoldable pub hex_lower : ℕ → ℕ
hex_lower n = if ltb n 10 then b'0' + n else b'a' + (n - 10)

unfoldable pub encode_hex : Bytes → Bytes
unfolding hex_lower
encode_hex [] = []
encode_hex (b ∷ s) = hex_lower (b / 16) ∷ hex_lower (b % 16) ∷ encode_hex s

-- b[6] = (b[6] & 0x0f) | 0x40 and b[8] = (b[8] & 0x3f) | 0x80.
unfoldable pub set_version : Bytes → Bytes
set_version b = let b' = set b 6 (get_or b 6 0 % 16 + 0x40) in set b' 8 (get_or b' 8 0 % 64 + 0x80)

-- The hexadecimal digits of b[lo:hi].
unfoldable pub hex_slice : ℕ → ℕ → Bytes → Bytes
unfolding encode_hex
hex_slice lo hi b = encode_hex (take (hi - lo) (drop lo b))

unfoldable pub format_uuid : Bytes → Bytes
unfolding hex_slice
format_uuid b =
    hex_slice 0 4 b
    ++ (b'-' ∷ hex_slice 4 6 b
        ++ (b'-' ∷ hex_slice 6 8 b ++ (b'-' ∷ hex_slice 8 10 b ++ (b'-' ∷ hex_slice 10 16 b))))

unfoldable pub new_uuid_v4 : Option Bytes → Bytes
unfolding set_version format_uuid
new_uuid_v4 none = codes "00000000-0000-4000-8000-000000000000"
new_uuid_v4 (some b) = format_uuid (set_version b)

unfoldable pub new_secret_token : Option Bytes → Bytes
unfolding encode_hex
new_secret_token none = codes "0000000000000000000000000000000000000000000000"
new_secret_token (some b) = encode_hex b
