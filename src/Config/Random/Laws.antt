-- ===== src/Config/Random/Laws.antt =====
-- The shape of a generated UUID, and what a secret token tells of its bytes.
use xray_vless_ws_go.Base.{
  ℕ, ◌+◌, ◌/◌, ◌%◌, ◌<◌, ◌≡◌, refl, Bool, true, false, ◌&&◌, ◌||◌, ◌==◌, leb, codes, if◌then◌else◌,
  ◌⊎◌, inl, ap, [], ◌∷◌, Option, none, some, arith, Bytes, length, get_elem?, IsBytes,
}
use xray_vless_ws_go.Config.Random.{hex_lower, new_uuid_v4}

-- Sixteen bytes, as `rand.Read` fills them.
abbrev pub Sixteen : Option Bytes → Type 0
Sixteen none = Unit {0}
Sixteen (some b) = (length b ≡ 16) × IsBytes b

abbrev is_hex : ℕ → Bool
is_hex c = (leb b'0' c && leb c b'9') || (leb b'a' c && leb c b'f')

-- A byte where the form has an x is a lower case hexadecimal digit, where it has a y one of 8, 9, a and
-- b, and any other byte is that of the form.
abbrev fits_byte : ℕ → ℕ → Bool
fits_byte p c =
    if p == b'x'
    then is_hex c
    else if p == b'y'
    then c == b'8' || c == b'9' || c == b'a' || c == b'b'
    else c == p

abbrev pub fits : Bytes → Bytes → Bool
fits [] [] = true
fits [] (c ∷ s) = false
fits (p ∷ ps) [] = false
fits (p ∷ ps) (c ∷ s) = fits_byte p c && fits ps s

-- A text in the form of a version 4 UUID of RFC 4122.
pub record IsUuidV4 (s : Bytes) : Type 0 where
  pub size : length s ≡ 36
  pub dashes :
      (get_elem? s 8 ≡ some b'-')
      × (get_elem? s 13 ≡ some b'-')
      × (get_elem? s 18 ≡ some b'-')
      × (get_elem? s 23 ≡ some b'-')
  pub form : fits (codes "xxxxxxxx-xxxx-4xxx-yxxx-xxxxxxxxxxxx") s ≡ true
  pub version : get_elem? s 14 ≡ some b'4'
  pub variant :
      (v : ℕ) × (get_elem? s 19 ≡ some v) × ((v ≡ b'8') ⊎ (v ≡ b'9') ⊎ (v ≡ b'a') ⊎ (v ≡ b'b'))

hex_lower_version : (b : ℕ) → hex_lower ((b % 16 + 0x40) / 16) ≡ b'4'
unfolding hex_lower
hex_lower_version b = ground arith

hex_lower_variant :
    (b : ℕ)
    → let v = hex_lower ((b % 64 + 0x80) / 16) in (v ≡ b'8') ⊎ (v ≡ b'9') ⊎ (v ≡ b'a') ⊎ (v ≡ b'b')
unfolding hex_lower
hex_lower_variant b = ground arith

hex : (n : ℕ) → n < 16 → is_hex (hex_lower n) ≡ true
unfolding hex_lower
hex n h = ground arith

high : (b : ℕ) → b < 256 → is_hex (hex_lower (b / 16)) ≡ true
high b h = hex (b / 16) (omega arith)

low : (b : ℕ) → is_hex (hex_lower (b % 16)) ≡ true
low b = hex (b % 16) (omega arith)

both : {a b : Bool} → a ≡ true → b ≡ true → (a && b) ≡ true
both h k = rw (h, k) refl

variant_fits : (b : ℕ) → fits_byte b'y' (hex_lower ((b % 64 + 0x80) / 16)) ≡ true
unfolding hex_lower
variant_fits b = ground arith

-- Whether `rand.Read` yields sixteen bytes or fails, a generated UUID has the form of version 4: lower
-- case hexadecimal digits, the dashes, the version and the variant.
pub new_uuid_v4-IsUuidV4 : (r : Option Bytes) → Sixteen r → IsUuidV4 (new_uuid_v4 r)
unfolding new_uuid_v4
new_uuid_v4-IsUuidV4 none h = record {
  size = refl;
  dashes = (refl, refl, refl, refl);
  form = refl;
  version = refl;
  variant = (b'8', refl, inl refl);
}
new_uuid_v4-IsUuidV4
      (some (b₀ ∷ b₁ ∷ b₂ ∷ b₃ ∷ b₄ ∷ b₅ ∷ b₆ ∷ b₇ ∷ b₈ ∷ b₉ ∷ c₀ ∷ c₁ ∷ c₂ ∷ c₃ ∷ c₄ ∷ c₅ ∷ []))
      (
        n,
        (
          h₀,
          (
            h₁,
            (h₂, (h₃, (h₄, (h₅, (h₆, (h₇, (h₈, (h₉, (k₀, (k₁, (k₂, (k₃, (k₄, (k₅, u)))))))))))))),
          ),
        ),
      ) =
    record {
      size = refl;
      dashes = (refl, refl, refl, refl);
      form = both (high b₀ h₀) (
          both (low b₀) (
            both (high b₁ h₁) (
              both (low b₁) (
                both (high b₂ h₂) (
                  both (low b₂) (
                    both (high b₃ h₃) (
                      both (low b₃) (
                        both refl (
                          both (high b₄ h₄) (
                            both (low b₄) (
                              both (high b₅ h₅) (
                                both (low b₅) (
                                  both refl (
                                    both (ap (λ (c : ℕ). c == b'4') (hex_lower_version b₆)) (
                                      both (low (b₆ % 16 + 0x40)) (
                                        both (high b₇ h₇) (
                                          both (low b₇) (
                                            both refl (
                                              both (variant_fits b₈) (
                                                both (low (b₈ % 64 + 0x80)) (
                                                  both (high b₉ h₉) (
                                                    both (low b₉) (
                                                      both refl (
                                                        both (high c₀ k₀) (
                                                          both (low c₀) (
                                                            both (high c₁ k₁) (
                                                            both (low c₁) (
                                                            both (high c₂ k₂) (
                                                            both (low c₂) (
                                                            both (high c₃ k₃) (
                                                            both (low c₃) (
                                                            both (high c₄ k₄) (
                                                            both (low c₄) (
                                                            both (high c₅ k₅) (
                                                            both (low c₅) (
                                                            refl))))))))))))))))))))))))))))))))))));
      version = ap some (hex_lower_version b₆);
      variant = (hex_lower ((b₈ % 64 + 0x80) / 16), refl, hex_lower_variant b₈);
    }
new_uuid_v4-IsUuidV4 (some b) h = absurd (omega arith)
