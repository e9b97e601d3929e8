-- ===== src/Text/Search.antt =====
-- strings.HasPrefix, HasSuffix, Contains, TrimPrefix, LastIndex and ToLower.
use xray_vless_ws_go.Base.{
  ℕ, ◌+◌, Bool, true, false, ◌&&◌, ◌||◌, [], ◌∷◌, reverse, Bytes, codes, ◌≡◌, refl, leb, ◌==◌,
  if◌then◌else◌, drop, length,
}

unfoldable pub has_prefix : Bytes → Bytes → Bool
has_prefix s [] = true
has_prefix [] (p ∷ ps) = false
has_prefix (c ∷ s) (p ∷ ps) = c == p && has_prefix s ps

unfoldable pub has_suffix : Bytes → Bytes → Bool
unfolding has_prefix
has_suffix s p = has_prefix (reverse s) (reverse p)

unfoldable pub contains : Bytes → Bytes → Bool
unfolding has_prefix
contains [] p = has_prefix [] p
contains (c ∷ s) p = has_prefix (c ∷ s) p || contains s p

unfoldable pub contains_byte : Bytes → ℕ → Bool
contains_byte [] b = false
contains_byte (c ∷ s) b = c == b || contains_byte s b

unfoldable pub trim_prefix : Bytes → Bytes → Bytes
unfolding has_prefix
trim_prefix s p = if has_prefix s p then drop (length p) s else s

-- Lower case of a byte of ASCII.
unfoldable pub lower_byte : ℕ → ℕ
lower_byte c = if leb b'A' c && leb c b'Z' then c + 32 else c

-- ASCII letters, and the two other letters whose lower case is ASCII: U+0130, the dotted I, and
-- U+212A, the Kelvin sign. Any other text beyond ASCII stays beyond ASCII; it is kept as it is here,
-- since the source compares every lowered text with texts of ASCII only.
unfoldable pub to_lower : Bytes → Bytes
unfolding lower_byte
to_lower [] = []
to_lower (a ∷ []) = lower_byte a ∷ []
to_lower (a ∷ b ∷ []) =
    let rest = to_lower (b ∷ []) in
    if a == 0xC4 && b == 0xB0 then b'i' ∷ [] else lower_byte a ∷ rest
to_lower (a ∷ b ∷ c ∷ s) =
    let rest₁ = to_lower (b ∷ c ∷ s) in
    let rest₂ = to_lower (c ∷ s) in
    let rest₃ = to_lower s in
    if a == 0xC4 && b == 0xB0
    then b'i' ∷ rest₂
    else if a == 0xE2 && b == 0x84 && c == 0xAA
    then b'k' ∷ rest₃
    else lower_byte a ∷ rest₁

lowers : to_lower (codes "XhTTp-1") ≡ codes "xhttp-1"
unfolding to_lower
lowers = refl
