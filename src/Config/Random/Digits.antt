-- ===== src/Config/Random/Digits.antt =====
-- What a generated UUID and a generated secret are made of.
use xray_vless_ws_go.Base.{
  ℕ, zero, suc, ◌+◌, ◌/◌, ◌%◌, ◌<◌, ◌≡◌, ◌≢◌, refl, Bool, true, ◌||◌, ◌&&◌, [], ◌∷◌, ◌++◌, Option,
  none, some, arith, Bytes, codes, leb, ◌==◌, length, take, drop, set, get_or, All, All-append,
  IsBytes,
}
use xray_vless_ws_go.Config.Random.{
  hex_lower, encode_hex, set_version, hex_slice, format_uuid, new_uuid_v4, new_secret_token,
}
use xray_vless_ws_go.Config.Random.Laws.{Sixteen}

-- A lower case hexadecimal digit or a dash.
abbrev pub is_token_byte : ℕ → Bool
is_token_byte c = (leb b'0' c && leb c b'9') || (leb b'a' c && leb c b'f') || c == b'-'

abbrev pub IsToken : Bytes → Type 0
IsToken = All (λ c. is_token_byte c ≡ true)

abbrev are_token : Bytes → Bool
are_token [] = true
are_token (c ∷ s) = is_token_byte c && are_token s

are_token-IsToken : (s : Bytes) → are_token s ≡ true → IsToken s
are_token-IsToken [] h = tt
are_token-IsToken (c ∷ s) h = (ground arith, are_token-IsToken s (ground arith))

-- Twenty-four bytes, as `rand.Read` fills them.
abbrev pub TwentyFour : Option Bytes → Type 0
TwentyFour none = Unit {0}
TwentyFour (some b) = (length b ≡ 24) × IsBytes b

hex_lower-is_token_byte : (n : ℕ) → n < 16 → is_token_byte (hex_lower n) ≡ true
unfolding hex_lower
hex_lower-is_token_byte n h = ground arith

encode_hex-IsToken : (s : Bytes) → IsBytes s → IsToken (encode_hex s)
unfolding encode_hex
encode_hex-IsToken [] h = tt
encode_hex-IsToken (b ∷ s) (hb, h) = (
  hex_lower-is_token_byte (b / 16) (omega arith),
  (hex_lower-is_token_byte (b % 16) (omega arith), encode_hex-IsToken s h),
)

take-IsBytes : (n : ℕ) (s : Bytes) → IsBytes s → IsBytes (take n s)
take-IsBytes zero s h = tt
take-IsBytes (suc n) [] h = tt
take-IsBytes (suc n) (b ∷ s) (hb, h) = (hb, take-IsBytes n s h)

drop-IsBytes : (n : ℕ) (s : Bytes) → IsBytes s → IsBytes (drop n s)
drop-IsBytes zero s h = h
drop-IsBytes (suc n) [] h = tt
drop-IsBytes (suc n) (b ∷ s) (hb, h) = drop-IsBytes n s h

set-IsBytes : (s : Bytes) (i b : ℕ) → b < 256 → IsBytes s → IsBytes (set s i b)
set-IsBytes [] i b hb h = tt
set-IsBytes (c ∷ s) zero b hb (hc, h) = (hb, h)
set-IsBytes (c ∷ s) (suc i) b hb (hc, h) = (hc, set-IsBytes s i b hb h)

hex_slice-IsToken : (lo hi : ℕ) (b : Bytes) → IsBytes b → IsToken (hex_slice lo hi b)
unfolding hex_slice
hex_slice-IsToken lo hi b h = encode_hex-IsToken _ (take-IsBytes _ _ (drop-IsBytes lo b h))

dashed-IsToken : (s t : Bytes) → IsToken s → IsToken t → IsToken (s ++ (b'-' ∷ t))
dashed-IsToken s t hs ht = All-append (λ c. is_token_byte c ≡ true) s (b'-' ∷ t) hs (refl, ht)

format_uuid-IsToken : (b : Bytes) → IsBytes b → IsToken (format_uuid b)
unfolding format_uuid
format_uuid-IsToken b h = dashed-IsToken _ _ (hex_slice-IsToken 0 4 b h) (
    dashed-IsToken _ _ (hex_slice-IsToken 4 6 b h) (
      dashed-IsToken _ _ (hex_slice-IsToken 6 8 b h)
        (dashed-IsToken _ _ (hex_slice-IsToken 8 10 b h) (hex_slice-IsToken 10 16 b h))))

set_version-IsBytes : (b : Bytes) → IsBytes b → IsBytes (set_version b)
unfolding set_version
set_version-IsBytes b h =
    set-IsBytes _ 8 _ (omega arith) (set-IsBytes b 6 (get_or b 6 0 % 16 + 0x40) (omega arith) h)

pub new_uuid_v4-IsToken : (r : Option Bytes) → Sixteen r → IsToken (new_uuid_v4 r)
unfolding new_uuid_v4
new_uuid_v4-IsToken none h = are_token-IsToken (codes "00000000-0000-4000-8000-000000000000") refl
new_uuid_v4-IsToken (some b) h = format_uuid-IsToken (set_version b) (set_version-IsBytes b h.1)

pub new_secret_token-IsToken : (r : Option Bytes) → TwentyFour r → IsToken (new_secret_token r)
unfolding new_secret_token
new_secret_token-IsToken none h =
    are_token-IsToken (codes "0000000000000000000000000000000000000000000000") refl
new_secret_token-IsToken (some b) h = encode_hex-IsToken b h.1

dashed_ne : (s t : Bytes) → (s ++ (b'-' ∷ t)) ≢ []
dashed_ne [] t e = cc
dashed_ne (c ∷ s) t e = cc

pub new_uuid_v4_ne : (r : Option Bytes) → new_uuid_v4 r ≢ []
unfolding new_uuid_v4 format_uuid
new_uuid_v4_ne none e = cc
new_uuid_v4_ne (some b) e = dashed_ne (hex_slice 0 4 (set_version b)) _ e

pub new_secret_token_ne : (r : Option Bytes) → TwentyFour r → new_secret_token r ≢ []
unfolding new_secret_token encode_hex
new_secret_token_ne none h e = cc
new_secret_token_ne (some []) h e = absurd (omega arith)
new_secret_token_ne (some (c ∷ b)) h e = cc
