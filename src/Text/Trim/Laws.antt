-- ===== src/Text/Trim/Laws.antt =====
-- What trimming leaves alone, and what it keeps of a property of the bytes.
use mathlib.Core.List.{reverse-reverse, reverse-cons}
use xray_vless_ws_go.Base.{
  ℕ, ◌≤◌, ◌≡◌, refl, Bool, false, [], ◌∷◌, reverse, arith, Bytes, All, All-append,
}
use xray_vless_ws_go.Text.Trim.{
  is_space, is_space₂, is_space₃, trim_front, trim_left, trim_right, trim_space,
}

module _ {ℓ} (P : ℕ → Type ℓ) where
  All-reverse : (s : Bytes) → All P s → All P (reverse s)
  All-reverse [] h = tt
  All-reverse (c ∷ s) (hc, hs) =
      rw (reverse-cons c s) (All-append P (reverse s) (c ∷ []) (All-reverse s hs) (hc, tt))

  module _ (one : ℕ → Bool) (two : ℕ → ℕ → Bool) (three : ℕ → ℕ → ℕ → Bool) where
    All-trim_front : (s : Bytes) → All P s → All P (trim_front one two three s)
    unfolding trim_front
    All-trim_front [] h = tt
    All-trim_front (a ∷ []) h = ground (arith, h)
    All-trim_front (a ∷ b ∷ []) h = ground (arith, h, All-trim_front (b ∷ []) h.1)
    All-trim_front (a ∷ b ∷ c ∷ s) h = ground (
      arith,
      h,
      All-trim_front (b ∷ c ∷ s) h.1,
      All-trim_front (c ∷ s) h.1.1,
      All-trim_front s h.1.1.1,
    )

  -- Trimming keeps what holds of every byte.
  pub All-trim_space : (s : Bytes) → All P s → All P (trim_space s)
  unfolding trim_space
  All-trim_space s h =
      All-reverse _ (All-trim_front _ _ _ _ (All-reverse _ (All-trim_front _ _ _ s h)))

-- A byte that shows on paper: ASCII, and no space.
abbrev pub IsGraphic : ℕ → Type 0
IsGraphic c = (33 ≤ c) × (c ≤ 126)

module _ (one : ℕ → Bool) (two : ℕ → ℕ → Bool) (three : ℕ → ℕ → ℕ → Bool) where
  -- A text stays whole where no test passes at its first byte.
  trim_front_stays :
      (a : ℕ) (s : Bytes)
      → one a ≡ false
      → ((b : ℕ) → two a b ≡ false)
      → ((b c : ℕ) → three a b c ≡ false)
      → trim_front one two three (a ∷ s) ≡ a ∷ s
  unfolding trim_front
  trim_front_stays a [] h₁ h₂ h₃ = rw h₁
  trim_front_stays a (b ∷ []) h₁ h₂ h₃ = rw (h₁, h₂ b)
  trim_front_stays a (b ∷ c ∷ s) h₁ h₂ h₃ = rw (h₁, h₂ b, h₃ b c)

trim_front_graphic :
    (one : ℕ → Bool) (two : ℕ → ℕ → Bool) (three : ℕ → ℕ → ℕ → Bool) (s : Bytes)
    → ((a : ℕ) → IsGraphic a → one a ≡ false)
    → ((a b : ℕ) → IsGraphic a → two a b ≡ false)
    → ((a b c : ℕ) → IsGraphic a → three a b c ≡ false)
    → All IsGraphic s
    → trim_front one two three s ≡ s
trim_front_graphic one two three [] h₁ h₂ h₃ g = unfold trim_front in refl
trim_front_graphic one two three (a ∷ s) h₁ h₂ h₃ (ga, gs) =
    trim_front_stays one two three a s (h₁ a ga) (λ b. h₂ a b ga) (λ b c. h₃ a b c ga)

not-is_space : (a : ℕ) → IsGraphic a → is_space a ≡ false
unfolding is_space
not-is_space a g = ground arith

not-is_space₂ : (a b : ℕ) → IsGraphic a → is_space₂ a b ≡ false
unfolding is_space₂
not-is_space₂ a b g = ground arith

not-is_space₃ : (a b c : ℕ) → IsGraphic a → is_space₃ a b c ≡ false
unfolding is_space₃
not-is_space₃ a b c g = ground arith

not-is_space₂_last : (a b : ℕ) → IsGraphic b → is_space₂ a b ≡ false
unfolding is_space₂
not-is_space₂_last a b g = ground arith

not-is_space₃_last : (a b c : ℕ) → IsGraphic c → is_space₃ a b c ≡ false
unfolding is_space₃
not-is_space₃_last a b c g = ground arith

-- A text of graphic bytes has nothing to trim.
pub trim_space-graphic : (s : Bytes) → All IsGraphic s → trim_space s ≡ s
unfolding trim_space trim_left trim_right
trim_space-graphic s g =
    rw
      (
        trim_front_graphic is_space is_space₂ is_space₃ s not-is_space not-is_space₂ not-is_space₃
            g,
        trim_front_graphic _ _ _ (reverse s) not-is_space (λ a b. not-is_space₂_last b a)
            (λ a b c. not-is_space₃_last c b a) (All-reverse IsGraphic s g),
      )
      (reverse-reverse s)
