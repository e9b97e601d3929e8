-- ===== src/LinkGen/Quote/Safe.antt =====
-- What the encoder's output is made of, and what it leaves alone.
use mathlib.Core.Bool.{cond}
use xray_vless_ws_go.Base.{
  ℕ, ◌+◌, ◌*◌, ◌≤◌, ◌<◌, ◌≡◌, ◌≢◌, refl, ap, true, [], ◌∷◌, arith, Bytes, All, All-append, length,
  length-append, IsBytes,
}
use xray_vless_ws_go.LinkGen.Quote.{is_py_unreserved, quote_byte, safe_quote}

-- A byte that no part of a URL gives a meaning to: printable, and none of the delimiters of RFC 3986.
pub record IsInert (c : ℕ) : Type 0 where
  pub printable : (b'!' ≤ c) × (c ≤ b'~')
  pub no_fragment : c ≢ b'#'
  pub no_query : (c ≢ b'?') × (c ≢ b'&') × (c ≢ b'=')
  pub no_path : c ≢ b'/'
  pub no_authority : (c ≢ b'@') × (c ≢ b':')
  pub no_plus : c ≢ b'+'

quote_byte-IsInert : (c : ℕ) → c < 256 → All IsInert (quote_byte c)
unfolding quote_byte
quote_byte-IsInert c h = ground arith

-- Every byte of the output is printable and is no delimiter of a URL, whatever bytes the input
-- holds.
pub safe_quote-IsInert : (s : Bytes) → IsBytes s → All IsInert (safe_quote s)
unfolding safe_quote
safe_quote-IsInert [] h = tt
safe_quote-IsInert (c ∷ s) (hc, hs) =
    All-append IsInert (quote_byte c) (safe_quote s) (quote_byte-IsInert c hc)
      (safe_quote-IsInert s hs)

-- The number of bytes that are escaped.
pub escaped : Bytes → ℕ
escaped [] = 0
escaped (c ∷ s) = cond (is_py_unreserved c) (escaped s) (escaped s + 1)

length-quote_byte : (c : ℕ) → length (quote_byte c) ≡ cond (is_py_unreserved c) 1 3
unfolding quote_byte
length-quote_byte c = ground arith

-- An escaped byte costs three bytes and every other byte one.
length-safe_quote : (s : Bytes) → length (safe_quote s) ≡ length s + 2 * escaped s
unfolding safe_quote escaped
length-safe_quote [] = omega arith
length-safe_quote (c ∷ s) =
    ground
      (arith, length-safe_quote s, length-append (quote_byte c) (safe_quote s), length-quote_byte c)

-- A text of unreserved bytes is left as it is.
safe_quote_id : (s : Bytes) → All (λ c. is_py_unreserved c ≡ true) s → safe_quote s ≡ s
unfolding safe_quote quote_byte
safe_quote_id [] h = refl
safe_quote_id (c ∷ s) (hc, hs) = rw hc (ap (◌∷◌ c) (safe_quote_id s hs))
