-- ===== src/Text/Split/Laws.antt =====
-- Splitting and joining undo one another, and what the parts hold.
use xray_vless_ws_go.Base.{
  ℕ, ◌≡◌, ◌≢◌, refl, ap, ◌∙◌, false, List, [], ◌∷◌, ◌++◌, Option, none, some, arith, Bytes,
  Bool-cases, inl, inr, ◌==◌, All, All-append, bytes_eq,
}
use xray_vless_ws_go.Text.Split.{cons_head, split, join, cut}

abbrev pub Lacks : ℕ → Bytes → Type 0
Lacks b = All (λ c. c ≢ b)

module _ (sep : ℕ) where
  split-ne-nil : (s : Bytes) → split sep s ≢ []
  unfolding split
  split-ne-nil [] = cc
  split-ne-nil (c ∷ s) = ground (arith, split-ne-nil s)

  join-cons_head :
      (c : ℕ) (ps : List Bytes) → join (sep ∷ []) (cons_head c ps) ≡ c ∷ join (sep ∷ []) ps
  unfolding join
  join-cons_head c [] = refl
  join-cons_head c (p ∷ []) = refl
  join-cons_head c (p ∷ q ∷ ps) = refl

  join_nil_first :
      (ps : List Bytes) → ps ≢ [] → join (sep ∷ []) ([] ∷ ps) ≡ sep ∷ join (sep ∷ []) ps
  unfolding join
  join_nil_first [] h = absurd (h refl)
  join_nil_first (p ∷ ps) h = refl

  -- Joining the parts of a split gives the text back.
  pub join-split : (s : Bytes) → join (sep ∷ []) (split sep s) ≡ s
  unfolding split
  join-split [] = unfold join in refl
  join-split (c ∷ s) = ground (
    arith,
    join-split s,
    join_nil_first (split sep s) (split-ne-nil s),
    join-cons_head c (split sep s),
  )

  split-append-sep : (p s : Bytes) → Lacks sep p → split sep (p ++ sep ∷ s) ≡ p ∷ split sep s
  unfolding split
  split-append-sep [] s h = ground arith
  split-append-sep (c ∷ p) s (hc, hp) = ground (arith, split-append-sep p s hp)

  cons_head-append :
      (c : ℕ) (ps qs : List Bytes) → ps ≢ [] → cons_head c (ps ++ qs) ≡ cons_head c ps ++ qs
  cons_head-append c [] qs h = absurd (h refl)
  cons_head-append c (p ∷ ps) qs h = refl

  pub split_without : (p : Bytes) → Lacks sep p → split sep p ≡ p ∷ []
  unfolding split
  split_without [] h = refl
  split_without (c ∷ p) (hc, hp) = ground (arith, split_without p hp)

  -- The part behind the last separator comes last.
  pub split-append : (s p : Bytes) → Lacks sep p → split sep (s ++ sep ∷ p) ≡ split sep s ++ p ∷ []
  unfolding split
  split-append [] p h = ground (arith, split_without p h)
  split-append (c ∷ s) p h =
      ground (arith, split-append s p h, cons_head-append c (split sep s) (p ∷ []) (split-ne-nil s))

  -- Splitting a join of parts that lack the separator gives the parts back.
  pub split-join :
      (p : Bytes) (ps : List Bytes)
      → All (Lacks sep) (p ∷ ps)
      → split sep (join (sep ∷ []) (p ∷ ps)) ≡ p ∷ ps
  unfolding join
  split-join p [] (hp, _) = split_without p hp
  split-join p (q ∷ ps) (hp, hps) =
      split-append-sep p (join (sep ∷ []) (q ∷ ps)) hp ∙ ap (◌∷◌ p) (split-join q ps hps)

  cons_head-Lacks :
      (c : ℕ) (ps : List Bytes) → c ≢ sep → All (Lacks sep) ps → All (Lacks sep) (cons_head c ps)
  cons_head-Lacks c [] h hp = ((h, tt), tt)
  cons_head-Lacks c (p ∷ ps) h (hp, hps) = ((h, hp), hps)

  -- No part holds the separator.
  pub split-Lacks : (s : Bytes) → All (Lacks sep) (split sep s)
  unfolding split
  split-Lacks [] = (tt, tt)
  split-Lacks (c ∷ s) = ground (arith, split-Lacks s, cons_head-Lacks c (split sep s))

  abbrev pub Sides : Bytes → Option (Bytes × Bytes) → Type 0
  Sides s none = Lacks sep s
  Sides s (some (a, b)) = (s ≡ a ++ sep ∷ b) × Lacks sep a

  Sides-cons :
      (c : ℕ) (s : Bytes) (o : Option (Bytes × Bytes))
      → c ≢ sep
      → Sides s o
      → Sides (c ∷ s) (elim o [ none ↦ none | some (a, b) ↦ some (c ∷ a, b) ])
  Sides-cons c s none h k = (h, k)
  Sides-cons c s (some (a, b)) h (e, l) = (ap (◌∷◌ c) e, (h, l))

  -- What `cut` returns are the two sides of the first separator, and `none` where there is none.
  pub cut-Sides : (s : Bytes) → Sides s (cut sep s)
  unfolding cut
  cut-Sides [] = tt
  cut-Sides (c ∷ s) = elim (Bool-cases (c == sep)) [
    | inl e ↦ rw e (ground arith)
    | inr e ↦ rw e (Sides-cons c s (cut sep s) (ground arith) (cut-Sides s))
  ]

  pub cut-append : (a b : Bytes) → Lacks sep a → cut sep (a ++ sep ∷ b) ≡ some (a, b)
  unfolding cut
  cut-append [] b h = ground arith
  cut-append (c ∷ a) b (hc, ha) = ground (arith, cut-append a b ha)

  cut_without : (s : Bytes) → Lacks sep s → cut sep s ≡ none
  unfolding cut
  cut_without [] h = refl
  cut_without (c ∷ s) (hc, hs) = ground (arith, cut_without s hs)

-- A join holds the bytes of the separator and of the parts.
pub All-join {ℓ} :
    (P : ℕ → Type ℓ) (sep : Bytes) (ps : List Bytes)
    → All P sep
    → All (All P) ps
    → All P (join sep ps)
unfolding join
All-join P sep [] hs hp = tt
All-join P sep (p ∷ []) hs (hp, _) = hp
All-join P sep (p ∷ q ∷ ps) hs (hp, hps) =
    All-append P p _ hp (All-append P sep _ hs (All-join P sep (q ∷ ps) hs hps))

pub join-ne-nil :
    (sep p : Bytes) (ps : List Bytes)
    → bytes_eq p [] ≡ false
    → bytes_eq (join sep (p ∷ ps)) [] ≡ false
unfolding join bytes_eq
join-ne-nil sep [] ps h = cc
join-ne-nil sep (c ∷ p) [] h = refl
join-ne-nil sep (c ∷ p) (q ∷ ps) h = refl
