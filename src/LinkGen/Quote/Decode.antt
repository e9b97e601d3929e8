-- ===== src/LinkGen/Quote/Decode.antt =====
-- A percent-decoder, the independent description that `safeQuote` is checked against.
use xray_vless_ws_go.Base.{
  ℕ, ◌+◌, ◌-◌, ◌*◌, ◌<◌, ◌≡◌, refl, ◌&&◌, [], ◌∷◌, ◌++◌, Option, none, some, arith, append_assoc,
  append-nil, Bytes, leb, ◌==◌, if◌then◌else◌, IsBytes,
}
use xray_vless_ws_go.LinkGen.Quote.{quote_byte, safe_quote}

-- The value of a hexadecimal digit in either case.
hex_value : ℕ → Option ℕ
hex_value c =
    if leb b'0' c && leb c b'9'
    then some (c - b'0')
    else if leb b'A' c && leb c b'F'
    then some (c - b'A' + 10)
    else if leb b'a' c && leb c b'f'
    then some (c - b'a' + 10)
    else none

-- Where the decoder stands: outside an escape, behind a `%`, or behind its first digit.
pub data Escape : Type 0 where
  outside : Escape
  percent : Escape
  high : ℕ → Escape

abbrev cons_to : ℕ → Option Bytes → Option Bytes
cons_to c none = none
cons_to c (some s) = some (c ∷ s)

decode_from : Bytes → Escape → Option Bytes
unfolding hex_value
decode_from [] outside = some []
decode_from [] percent = none
decode_from [] (high h) = none
decode_from (c ∷ s) outside =
    let escaped = decode_from s percent in
    let plain = cons_to c (decode_from s outside) in if c == b'%' then escaped else plain
decode_from (c ∷ s) percent = elim (hex_value c) [ none ↦ none | some h ↦ decode_from s (high h) ]
decode_from (c ∷ s) (high h) = elim (hex_value c) [
  | none ↦ none
  | some l ↦ cons_to (h * 16 + l) (decode_from s outside)
]

unfoldable pub decode : Bytes → Option Bytes
unfolding decode_from
decode s = decode_from s outside

decode_from-quote_byte :
    (c : ℕ) (s : Bytes)
    → c < 256
    → decode_from (quote_byte c ++ s) outside ≡ cons_to c (decode_from s outside)
unfolding decode_from quote_byte
decode_from-quote_byte c s h = ground arith

abbrev pub append_to : Bytes → Option Bytes → Option Bytes
append_to s none = none
append_to s (some r) = some (s ++ r)

append_to-cons :
    (c : ℕ) (s : Bytes) (o : Option Bytes) → cons_to c (append_to s o) ≡ append_to (c ∷ s) o
append_to-cons c s none = refl
append_to-cons c s (some r) = refl

decode_from-safe_quote :
    (s rest : Bytes)
    → IsBytes s
    → decode_from (safe_quote s ++ rest) outside ≡ append_to s (decode_from rest outside)
unfolding safe_quote
decode_from-safe_quote [] rest h = ground arith
decode_from-safe_quote (c ∷ s) rest (hc, hs) =
    rw (append_assoc, decode_from-quote_byte c _ hc, decode_from-safe_quote s rest hs)
      (append_to-cons c s _)

-- Decoding what the encoder wrote in front of any text gives the string back, in front of what
-- decoding that text gives.
pub decode-append :
    (s rest : Bytes) → IsBytes s → decode (safe_quote s ++ rest) ≡ append_to s (decode rest)
unfolding decode
decode-append s rest h = decode_from-safe_quote s rest h

-- Percent-decoding undoes `safeQuote` on every string of bytes.
pub decode-safe_quote : (s : Bytes) → IsBytes s → decode (safe_quote s) ≡ some s
unfolding decode
decode-safe_quote s h =
    rw (← append-nil (safe_quote s)) (rw (decode_from-safe_quote s [] h) (rw append-nil))
