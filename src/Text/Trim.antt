-- ===== src/Text/Trim.antt =====
-- strings.TrimSpace: it trims the Unicode white space, in its UTF-8 encoding, at both ends.
pub mod Laws
use xray_vless_ws_go.Base.{
  ℕ, Bool, ◌&&◌, ◌||◌, [], ◌∷◌, reverse, Bytes, codes, ◌≡◌, refl, leb, ◌==◌, if◌then◌else◌,
}

-- One-byte spaces: tab to carriage return, and the blank.
unfoldable pub is_space : ℕ → Bool
is_space a = (leb 9 a && leb a 13) || a == 32

-- U+0085 and U+00A0.
unfoldable pub is_space₂ : ℕ → ℕ → Bool
is_space₂ a b = a == 0xC2 && (b == 0x85 || b == 0xA0)

-- U+1680, U+2000 to U+200A, U+2028, U+2029, U+202F, U+205F and U+3000.
unfoldable pub is_space₃ : ℕ → ℕ → ℕ → Bool
is_space₃ a b c =
    (a == 0xE1 && b == 0x9A && c == 0x80)
    || (a == 0xE2
        && b == 0x80
        && ((leb 0x80 c && leb c 0x8A) || c == 0xA8 || c == 0xA9 || c == 0xAF))
    || (a == 0xE2 && b == 0x81 && c == 0x9F)
    || (a == 0xE3 && b == 0x80 && c == 0x80)

-- Drops the longest run of spaces at the front, given the tests for one, two and three bytes.
module _ (one : ℕ → Bool) (two : ℕ → ℕ → Bool) (three : ℕ → ℕ → ℕ → Bool) where
  unfoldable pub trim_front : Bytes → Bytes
  trim_front [] = []
  trim_front (a ∷ []) = if one a then [] else a ∷ []
  trim_front (a ∷ b ∷ []) =
      let rest₁ = trim_front (b ∷ []) in if one a then rest₁ else if two a b then [] else a ∷ b ∷ []
  trim_front (a ∷ b ∷ c ∷ s) =
      let rest₁ = trim_front (b ∷ c ∷ s) in
      let rest₂ = trim_front (c ∷ s) in
      let rest₃ = trim_front s in
      if one a
      then rest₁
      else if two a b
      then rest₂
      else if three a b c
      then rest₃
      else a ∷ b ∷ c ∷ s

unfoldable pub trim_left : Bytes → Bytes
unfolding trim_front is_space is_space₂ is_space₃
trim_left = trim_front is_space is_space₂ is_space₃

-- From the end the bytes of a space come in the opposite order.
unfoldable pub trim_right : Bytes → Bytes
unfolding trim_front is_space is_space₂ is_space₃
trim_right s =
    reverse (trim_front is_space (λ b a. is_space₂ a b) (λ c b a. is_space₃ a b c) (reverse s))

unfoldable pub trim_space : Bytes → Bytes
unfolding trim_left trim_right
trim_space s = trim_right (trim_left s)

trims_both_ends : trim_space (codes " \t a b\r\n") ≡ codes "a b"
unfolding trim_space
trims_both_ends = refl

trims_wide : trim_space (0xE3 ∷ 0x80 ∷ 0x80 ∷ b'x' ∷ 0xC2 ∷ 0xA0 ∷ []) ≡ codes "x"
unfolding trim_space
trims_wide = refl
