-- ===== src/Base/Results.antt =====
-- A call that returns a value or an error, in place of Go's pair of a result and an `error`.
use mathlib.Core.Path.{◌≡◌, refl, subst}
use mathlib.Core.List.{List, ◌∷◌}
use xray_vless_ws_go.Base.Lists.{All}

pub data Result {ℓ κ} (E : Type ℓ) (A : Type κ) : Type (ℓ ⊔ κ) where
  ok : A → Result E A
  err : E → Result E A

infixl 5 ◌>>=◌
abbrev pub ◌>>=◌ {ℓ κ μ} :
    {E : Type ℓ} {A : Type κ} {B : Type μ} → Result E A → (A → Result E B) → Result E B
ok a >>= f = f a
err e >>= f = err e

module _ {ℓ κ} {E : Type ℓ} {A : Type κ} where
  pub ok-injective : {a b : A} → ◌≡◌ {A = Result E A} (ok a) (ok b) → a ≡ b
  ok-injective e = cc

  -- A loop that stops at the first error: what holds of each result holds of all that it returns.
  pub All-cons_ok {μ} :
      (P : A → Type μ) (r : Result E A) (rs : Result E (List A)) {xs : List A}
      → (r >>= λ a. rs >>= λ as'. ok (a ∷ as')) ≡ ok xs
      → ((a : A) → r ≡ ok a → P a)
      → ((as' : List A) → rs ≡ ok as' → All P as')
      → All P xs
  All-cons_ok P (ok a) (ok as') p one rest =
      subst (All P) (ok-injective₁ p) (one a refl, rest as' refl)
    where
      ok-injective₁ : {xs ys : List A} → ◌≡◌ {A = Result E (List A)} (ok xs) (ok ys) → xs ≡ ys
      ok-injective₁ e = cc
  All-cons_ok P (ok a) (err e) p one rest = cc
  All-cons_ok P (err e) rs p one rest = cc
