-- ===== src/LogServer/Auth/Sessions.antt =====
-- Which session tokens are accepted.
use xray_vless_ws_go.Base.{
  ℕ, suc, ◌+◌, ◌*◌, ◌/◌, ◌%◌, ◌≤◌, ◌<◌, ◌≡◌, ◌≢◌, refl, ap, ◌∙◌, sym, true, false, List, [], ◌∷◌,
  ◌++◌, Option, none, some, arith, Bytes, bytes_eq_sound, bytes_eq_refl, leb, All, IsBytes, inl,
  inr, Bool-cases,
}
use xray_vless_ws_go.Text.Decimal.{ℤ, pos, negsuc, itoa, atoi, int_limit}
use xray_vless_ws_go.Text.Decimal.RoundTrip.{IsDigit, itoa-IsDigit, atoi-itoa}
use xray_vless_ws_go.Text.Split.{split, join}
use xray_vless_ws_go.Text.Split.Laws.{Lacks, split-append, split_without, join-split}
use xray_vless_ws_go.Config.Random.{hex_lower, encode_hex}
use xray_vless_ws_go.LogServer.Auth.{
  second, session_duration, hex_value, decode_hex, is_stale, create_session_token, has_signature,
  is_live_and_signed, validate_parts, validate_session_token,
}

hex_value-hex_lower : (n : ℕ) → n < 16 → hex_value (hex_lower n) ≡ some n
unfolding hex_value hex_lower
hex_value-hex_lower n h = ground arith

-- Hexadecimal digits are read back as the bytes that they were written for.
decode_hex-encode_hex : (s : Bytes) → IsBytes s → decode_hex (encode_hex s) ≡ some s
unfolding decode_hex encode_hex
decode_hex-encode_hex [] h = refl
decode_hex-encode_hex (b ∷ s) (hb, hs) =
    rw
      (
        hex_value-hex_lower (b / 16) (omega arith),
        hex_value-hex_lower (b % 16) (omega arith),
        decode_hex-encode_hex s hs,
      )
      (ap (λ (c : ℕ). some (c ∷ s)) (omega arith))

hex_lower-Lacks : (n : ℕ) → n < 16 → hex_lower n ≢ b'.'
unfolding hex_lower
hex_lower-Lacks n h = ground arith

encode_hex-Lacks : (s : Bytes) → IsBytes s → Lacks b'.' (encode_hex s)
unfolding encode_hex
encode_hex-Lacks [] h = tt
encode_hex-Lacks (b ∷ s) (hb, hs) = (
  hex_lower-Lacks (b / 16) (omega arith),
  (hex_lower-Lacks (b % 16) (omega arith), encode_hex-Lacks s hs),
)

itoa-Lacks : (s : Bytes) → All IsDigit s → Lacks b'.' s
itoa-Lacks [] h = tt
itoa-Lacks (c ∷ s) (hc, hs) = (omega arith, itoa-Lacks s hs)

module _ (hmac : Bytes → Bytes → Bytes) where
  split-token :
      (secret : Bytes) (now : ℕ)
      → ((m : Bytes) → IsBytes (hmac secret m))
      → split b'.' (create_session_token hmac secret now)
        ≡ itoa (now / second) ∷ encode_hex (hmac secret (itoa (now / second))) ∷ []
  unfolding create_session_token
  split-token secret now h =
      let ts = itoa (now / second) in
      split-append b'.' ts _ (encode_hex-Lacks (hmac secret ts) (h ts))
      ∙ ap (λ ps. ps ++ encode_hex (hmac secret ts) ∷ [])
          (split_without b'.' ts (itoa-Lacks ts (itoa-IsDigit (now / second))))

  -- A token is accepted exactly until the session's duration is over, counted from the second in
  -- which it was made, at any later moment. HMAC yields bytes, and the time in seconds fits into
  -- 64 bits.
  pub validate-create :
      (secret : Bytes) (made since_now until_now : ℕ)
      → ((m : Bytes) → IsBytes (hmac secret m))
      → made / second < int_limit
      → made ≤ since_now
      → made ≤ until_now
      → validate_session_token hmac
          (create_session_token hmac secret made)
          secret
          since_now
          until_now
        ≡ leb since_now (made / second * second + session_duration)
  unfolding validate_session_token
  validate-create secret made since_now until_now h fits s u =
      rw
        (
          split-token secret made h,
          atoi-itoa (made / second) fits,
          decode_hex-encode_hex (hmac secret (itoa (made / second))) (h (itoa (made / second))),
          bytes_eq_refl (hmac secret (itoa (made / second))),
        )
        (ground arith)

  -- A time in seconds that is at most seven days before one reading of the clock, and at most ten minutes
  -- after the other.
  abbrev pub IsLive : ℤ → ℕ → ℕ → Type 0
  IsLive (pos ts) since_now until_now =
      (since_now ≤ (ts + 604800) * 1000000000) × (ts * 1000000000 ≤ until_now + 600 * 1000000000)
  IsLive (negsuc ts) since_now until_now = since_now + suc ts * 1000000000 ≤ 604800 * 1000000000

  is_stale-IsLive :
      (ts : ℤ) (since_now until_now : ℕ)
      → is_stale ts since_now until_now ≡ false
      → IsLive ts since_now until_now
  unfolding is_stale
  is_stale-IsLive (pos ts) since_now until_now h = (ground arith, ground arith)
  is_stale-IsLive (negsuc ts) since_now until_now h = ground arith

  -- The signed statement behind an accepted token.
  pub record IsSigned (token secret : Bytes) (since_now until_now : ℕ) : Type 0 where
    pub ts_str : Bytes
    pub sig_hex : Bytes
    pub ts : ℤ
    pub laid_out : token ≡ ts_str ++ b'.' ∷ sig_hex
    pub read : atoi ts_str ≡ some ts
    pub fresh : IsLive ts since_now until_now
    pub signed : decode_hex sig_hex ≡ some (hmac secret ts_str)

  has_signature-decode :
      (secret ts_str : Bytes) (o : Option Bytes)
      → has_signature hmac secret ts_str o ≡ true
      → o ≡ some (hmac secret ts_str)
  unfolding has_signature
  has_signature-decode secret ts_str none p = cc
  has_signature-decode secret ts_str (some sig) p = ap some (sym (bytes_eq_sound _ sig p))

  module _ (secret : Bytes) (since_now until_now : ℕ) where
    is_live_and_signed-IsSigned :
        (token ts_str sig_hex : Bytes) (o : Option ℤ)
        → token ≡ ts_str ++ b'.' ∷ sig_hex
        → atoi ts_str ≡ o
        → is_live_and_signed hmac secret since_now until_now ts_str sig_hex o ≡ true
        → IsSigned token secret since_now until_now
    unfolding is_live_and_signed
    is_live_and_signed-IsSigned token ts_str sig_hex none e a p = cc
    is_live_and_signed-IsSigned token ts_str sig_hex (some ts) e a p =
        elim (Bool-cases (is_stale ts since_now until_now)) [
          | inl old ↦ cc (rw old at p)
          | inr fresh ↦ record {
            ts_str = ts_str;
            sig_hex = sig_hex;
            ts = ts;
            laid_out = e;
            read = a;
            fresh = is_stale-IsLive ts since_now until_now fresh;
            signed = has_signature-decode secret ts_str (decode_hex sig_hex) (rw fresh at p);
          }
        ]

    validate_parts-IsSigned :
        (token : Bytes) (parts : List Bytes)
        → join (b'.' ∷ []) parts ≡ token
        → validate_parts hmac secret since_now until_now parts ≡ true
        → IsSigned token secret since_now until_now
    unfolding validate_parts
    validate_parts-IsSigned token [] e p = cc
    validate_parts-IsSigned token (a ∷ []) e p = cc
    validate_parts-IsSigned token (a ∷ b ∷ []) e p =
        is_live_and_signed-IsSigned token a b (atoi a) (sym (unfold join in e)) refl p
    validate_parts-IsSigned token (a ∷ b ∷ c ∷ ps) e p = cc

  -- An accepted token holds a timestamp that is at most seven days old and at most ten minutes ahead,
  -- at the two clock readings, and the signature of exactly that timestamp's
  -- text under the server's secret.
  pub validate-IsSigned :
      (token secret : Bytes) (since_now until_now : ℕ)
      → validate_session_token hmac token secret since_now until_now ≡ true
      → IsSigned token secret since_now until_now
  unfolding validate_session_token
  validate-IsSigned token secret since_now until_now p =
      validate_parts-IsSigned secret since_now until_now token (split b'.' token)
        (join-split b'.' token) p
