-- ===== src/Text/Split.antt =====
-- strings.Split, strings.SplitN(_, _, 2), strings.Join and strings.Fields.
pub mod Laws
use xray_vless_ws_go.Base.{
  ℕ, Bool, true, false, List, [], ◌∷◌, ◌++◌, Option, none, some, Bytes, codes, ◌≡◌, refl, ◌==◌,
  if◌then◌else◌,
}
use xray_vless_ws_go.Text.Trim.{is_space, is_space₂, is_space₃}

-- Puts a byte in front of the first part.
abbrev pub cons_head : ℕ → List Bytes → List Bytes
cons_head c [] = (c ∷ []) ∷ []
cons_head c (p ∷ ps) = (c ∷ p) ∷ ps

-- Cuts at every separator byte; there is always a part.
unfoldable pub split : ℕ → Bytes → List Bytes
split sep [] = [] ∷ []
split sep (c ∷ s) = let rest = split sep s in if c == sep then [] ∷ rest else cons_head c rest

-- The parts with the separator between them.
unfoldable pub join : Bytes → List Bytes → Bytes
join sep [] = []
join sep (p ∷ []) = p
join sep (p ∷ q ∷ ps) = p ++ (sep ++ join sep (q ∷ ps))

-- What stands before and behind the first separator byte, if there is one.
unfoldable pub cut : ℕ → Bytes → Option (Bytes × Bytes)
cut sep [] = none
cut sep (c ∷ s) =
    let rest : Option (Bytes × Bytes) = elim (cut sep s) [
      | none ↦ none
      | some (a, b) ↦ some (c ∷ a, b)
    ] in
    if c == sep then some ([], s) else rest

-- A finished word, if there is one.
abbrev flush : Bytes → List Bytes → List Bytes
flush [] words = words
flush (c ∷ cur) words = (c ∷ cur) ∷ words

-- strings.Fields with `cur`, the word so far: white space of any length parts the words.
unfoldable pub fields_from : Bytes → Bytes → List Bytes
unfolding is_space is_space₂ is_space₃
fields_from [] cur = flush cur []
fields_from (a ∷ []) cur = if is_space a then flush cur [] else flush (cur ++ a ∷ []) []
fields_from (a ∷ b ∷ []) cur =
    let next = fields_from (b ∷ []) [] in
    let more = fields_from (b ∷ []) (cur ++ a ∷ []) in
    if is_space a then flush cur next else if is_space₂ a b then flush cur [] else more
fields_from (a ∷ b ∷ c ∷ s) cur =
    let after₁ = fields_from (b ∷ c ∷ s) [] in
    let after₂ = fields_from (c ∷ s) [] in
    let after₃ = fields_from s [] in
    let more = fields_from (b ∷ c ∷ s) (cur ++ a ∷ []) in
    if is_space a
    then flush cur after₁
    else if is_space₂ a b
    then flush cur after₂
    else if is_space₃ a b c
    then flush cur after₃
    else more

unfoldable pub fields : Bytes → List Bytes
unfolding fields_from
fields s = fields_from s []

parts_words : fields (codes " ab  c ") ≡ codes "ab" ∷ codes "c" ∷ []
unfolding fields
parts_words = refl

splits_at_commas : split b',' (codes "a,,b") ≡ codes "a" ∷ [] ∷ codes "b" ∷ []
unfolding split
splits_at_commas = refl

cuts_at_first : cut b'#' (codes "a#b#c") ≡ some (codes "a", codes "b#c")
unfolding cut
cuts_at_first = refl
