-- ===== src/LinkGen/Quote.antt =====
-- internal/linkgen/quote.go. A byte is a number below 256.
pub mod Decode
pub mod Safe
use xray_vless_ws_go.Base.{
  ℕ, ◌+◌, ◌-◌, ◌/◌, ◌%◌, Bool, true, false, ◌&&◌, ◌||◌, [], ◌∷◌, ◌++◌, Bytes, codes, leb, ltb, ◌==◌,
  if◌then◌else◌,
}

-- The four cases of the `switch`.
unfoldable pub is_py_unreserved : ℕ → Bool
is_py_unreserved c =
    (leb b'A' c && leb c b'Z')
    || (leb b'a' c && leb c b'z')
    || (leb b'0' c && leb c b'9')
    || (c == b'_' || c == b'.' || c == b'-' || c == b'~')

-- `hex[n]` of "0123456789ABCDEF", for n < 16.
unfoldable pub hex_digit : ℕ → ℕ
hex_digit n = if ltb n 10 then b'0' + n else b'A' + (n - 10)

-- One round of the loop: `c >> 4` is `c / 16` and `c & 0x0f` is `c % 16`.
unfoldable pub quote_byte : ℕ → Bytes
unfolding is_py_unreserved hex_digit
quote_byte c =
    if is_py_unreserved c then c ∷ [] else b'%' ∷ hex_digit (c / 16) ∷ hex_digit (c % 16) ∷ []

unfoldable pub safe_quote : Bytes → Bytes
unfolding quote_byte
safe_quote [] = []
safe_quote (c ∷ s) = quote_byte c ++ safe_quote s
