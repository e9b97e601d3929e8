-- ===== src/Config/EnvFile/Plain.antt =====
-- Comments and plain settings of a .env file, and what a start reads from them.
use xray_vless_ws_go.Base.{
  ℕ, ◌≡◌, refl, Bool, true, false, not, ◌&&◌, ◌||◌, List, [], ◌∷◌, Option, none, some, Bytes, codes,
  bytes_eq, ◌==◌, leb, if◌then◌else◌, ok, arith,
}
use xray_vless_ws_go.Text.Search.{has_prefix}
use xray_vless_ws_go.Text.Split.{cut}
use xray_vless_ws_go.Config.Random.Digits.{IsToken}
use xray_vless_ws_go.Config.Env.{Environ}
use xray_vless_ws_go.Config.EnvFile.{Reader, with_newlines}

-- A byte of a value that godotenv takes as it is: printable ASCII, no white space, no quotation mark, no
-- dollar sign and no backslash.
abbrev is_value_byte : ℕ → Bool
is_value_byte c =
    (leb 33 c && leb c 126) && not (c == b'"' || c == b'$' || c == 39 || c == 92 || c == b'`')

abbrev are_value_bytes : Bytes → Bool
are_value_bytes [] = true
are_value_bytes (c ∷ s) = is_value_byte c && are_value_bytes s

-- A hash follows no white space, so that it starts no comment.
abbrev pub is_value : Bytes → Bool
is_value [] = true
is_value (c ∷ s) = not (c == b'#') && are_value_bytes (c ∷ s)

-- A capital or an underscore.
abbrev is_key : Bytes → Bool
is_key [] = true
is_key (c ∷ s) = ((leb b'A' c && leb c b'Z') || c == b'_') && is_key s

abbrev pub is_one_line : Bytes → Bool
is_one_line [] = true
is_one_line (c ∷ s) = not (c == b'\n') && is_one_line s

abbrev is_setting : Option (Bytes × Bytes) → Bool
is_setting none = false
is_setting (some (key, value)) = is_key key && (not (bytes_eq key []) && is_value value)

-- A comment, or a plain KEY=value.
abbrev is_plain_line : Bytes → Bool
is_plain_line line = is_one_line line && (has_prefix line (codes "#") || is_setting (cut b'=' line))

abbrev pub are_plain : List Bytes → Bool
are_plain [] = true
are_plain (l ∷ ls) = is_plain_line l && are_plain ls

abbrev setting : Bytes → Option (Bytes × Bytes) → Option Bytes
setting key none = none
setting key (some (k, v)) = if bytes_eq k key then some v else none

-- The value of the last line that sets the key.
abbrev pub lookup : Bytes → List Bytes → Option Bytes
lookup key [] = none
lookup key (l ∷ ls) =
    let here = if has_prefix l (codes "#") then none else setting key (cut b'=' l) in
    elim (lookup key ls) [ some v ↦ some v | none ↦ here ]

-- The environment wins over the file.
abbrev pub merged : List Bytes → Environ → Environ
merged lines env key = elim (env key) [ some v ↦ some v | none ↦ lookup key lines ]

-- godotenv.Load of comments and plain settings.
abbrev pub ReadsPlain : Reader → Type 0
ReadsPlain reader =
    (lines : List Bytes) (env : Environ)
    → are_plain lines ≡ true
    → reader (some (with_newlines lines)) env ≡ ok (merged lines env)

abbrev pub no_env : Environ
no_env key = none

bytes_one_line : (s : Bytes) → are_value_bytes s ≡ true → is_one_line s ≡ true
bytes_one_line [] h = refl
bytes_one_line (c ∷ s) h = ground (arith, bytes_one_line s)

pub value_one_line : (s : Bytes) → is_value s ≡ true → is_one_line s ≡ true
value_one_line [] h = refl
value_one_line (c ∷ s) h = bytes_one_line (c ∷ s) (ground arith)

-- The digits of a generated secret can be written as they are.
token_bytes : (s : Bytes) → IsToken s → are_value_bytes s ≡ true
token_bytes [] h = refl
token_bytes (c ∷ s) (hc, h) = let rest = token_bytes s h in ground arith

pub IsToken-is_value : (s : Bytes) → IsToken s → is_value s ≡ true
IsToken-is_value [] h = refl
IsToken-is_value (c ∷ s) h = let rest = token_bytes (c ∷ s) h in let digit = h.0 in ground arith
