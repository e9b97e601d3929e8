-- ===== src/Base/Script.antt =====
-- Go code that changes a state and stops at its first error: what it returns, and the state that it
-- leaves, after an error too.
use mathlib.Core.Logic.{◌⊎◌, inl, inr}
use mathlib.Core.Bool.{Bool, true, false}
use xray_vless_ws_go.Base.Tests.{if◌then◌else◌}
use xray_vless_ws_go.Base.Results.{Result, ok, err}

abbrev pub Script : Type 0 → Type 0 → Type 0 → Type 0
Script W E A = W → Result E A × W

module _ {W E : Type 0} where
  abbrev pub pure : {A : Type 0} → A → Script W E A
  pure a w = (ok a, w)

  abbrev pub fail : {A : Type 0} → E → Script W E A
  fail e w = (err e, w)

  abbrev pub fail_if : Bool → E → Script W E Unit
  fail_if c e w = (if c then err e else ok tt, w)

  infixl 5 ◌>>=◌
  unfoldable pub ◌>>=◌ : {A B : Type 0} → Script W E A → (A → Script W E B) → Script W E B
  ◌>>=◌ m f w = let (r, w') = m w in elim r [ ok a ↦ f a w' | err e ↦ (err e, w') ]

  infixl 5 ◌>>◌
  abbrev pub ◌>>◌ : {A B : Type 0} → Script W E A → Script W E B → Script W E B
  m >> k = m >>= λ _. k

  -- `if err := m; err != nil { return fmt.Errorf("…: %w", err) }`.
  unfoldable pub wrap : {A : Type 0} → (E → E) → Script W E A → Script W E A
  wrap f m w = let (r, w') = m w in elim r [ ok a ↦ (ok a, w') | err e ↦ (err (f e), w') ]

  -- `if err := m; err == nil { return nil }`, and what stands behind it.
  unfoldable pub or_else : {A : Type 0} → Script W E A → Script W E A → Script W E A
  or_else m k w = let (r, w') = m w in elim r [ ok a ↦ (ok a, w') | err e ↦ k w' ]

  unfoldable pub when : Bool → Script W E Unit → Script W E Unit
  when c m w = let r = m w in if c then r else (ok tt, w)

module _ {W E : Type 0} where
  -- What holds of the state at the return of a value, and of the state at an error.
  abbrev pub Leaves : {A : Type 0} → (W → Type 0) → (W → Type 0) → Result E A × W → Type 0
  Leaves P Q (ok a, w) = P w
  Leaves P Q (err e, w) = Q w

-- From a state of `P`, a script that returns leaves a state of `Q`, and one that fails a state of `R`.
pub record Triple {W E A : Type 0} (P Q R : W → Type 0) (m : Script W E A) : Type 0 where
  pub at : (w : W) → P w → Leaves Q R (m w)

module _ {W E : Type 0} where
  bind_lem :
      {A B : Type 0} {Q Q' R : W → Type 0} (f : A → Script W E B) (r : Result E A × W)
      → Leaves Q R r
      → ((a : A) → Triple Q Q' R (f a))
      → Leaves {E = E} {A = B} Q' R (elim r.0 [ ok a ↦ f a r.1 | err e ↦ (err e, r.1) ])
  bind_lem f (ok a, w') h k = (k a).at w' h
  bind_lem f (err e, w') h k = h

  pub Triple-bind :
      {A B : Type 0} {P Q Q' R : W → Type 0} {m : Script W E A} {f : A → Script W E B}
      → Triple P Q R m
      → ((a : A) → Triple Q Q' R (f a))
      → Triple P Q' R (m >>= f)
  unfolding ◌>>=◌
  Triple-bind {m = m} {f = f} h k = record { at = λ w p. bind_lem f (m w) (h.at w p) k }

  wrap_lem :
      {A : Type 0} (Q R : W → Type 0) (g : E → E) (r : Result E A × W)
      → Leaves Q R r
      → Leaves {E = E} {A = A} Q R (elim r.0 [ ok a ↦ (ok a, r.1) | err e ↦ (err (g e), r.1) ])
  wrap_lem Q R g (ok a, w') h = h
  wrap_lem Q R g (err e, w') h = h

  pub Triple-wrap :
      {A : Type 0} {P Q R : W → Type 0} {m : Script W E A} (g : E → E)
      → Triple P Q R m
      → Triple P Q R (wrap g m)
  unfolding wrap
  Triple-wrap {Q = Q} {R = R} {m = m} g h = record { at = λ w p. wrap_lem Q R g (m w) (h.at w p) }

  or_else_lem :
      {A : Type 0} {Q R R' : W → Type 0} (k : Script W E A) (r : Result E A × W)
      → Leaves Q R' r
      → Triple R' Q R k
      → Leaves {E = E} {A = A} Q R (elim r.0 [ ok a ↦ (ok a, r.1) | err e ↦ k r.1 ])
  or_else_lem k (ok a, w') h next = h
  or_else_lem k (err e, w') h next = next.at w' h

  pub Triple-or_else :
      {A : Type 0} {P Q R R' : W → Type 0} {m k : Script W E A}
      → Triple P Q R' m
      → Triple R' Q R k
      → Triple P Q R (or_else m k)
  unfolding or_else
  Triple-or_else {m = m} {k = k} h next = record { at = λ w p. or_else_lem k (m w) (h.at w p) next }

  pub Leaves-weaken :
      {A : Type 0} (Q Q' R R' : W → Type 0) (x : Result E A × W)
      → Leaves Q R x
      → ((w : W) → Q w → Q' w)
      → ((w : W) → R w → R' w)
      → Leaves Q' R' x
  Leaves-weaken Q Q' R R' (ok a, w) h q r = q w h
  Leaves-weaken Q Q' R R' (err e, w) h q r = r w h

  pub Triple-weaken :
      {A : Type 0} {P Q Q' R R' : W → Type 0} {m : Script W E A}
      → Triple P Q R m
      → ((w : W) → Q w → Q' w)
      → ((w : W) → R w → R' w)
      → Triple P Q' R' m
  Triple-weaken {Q = Q} {Q' = Q'} {R = R} {R' = R'} {m = m} h q r = record {
    at = λ w p. Leaves-weaken Q Q' R R' (m w) (h.at w p) q r;
  }

  Leaves-always : {A : Type 0} (Q : W → Type 0) (x : Result E A × W) → Q x.1 → Leaves Q Q x
  Leaves-always Q (ok a, w) h = h
  Leaves-always Q (err e, w) h = h

  -- What holds of the state behind a script, whatever it returns.
  pub Triple-always :
      {A : Type 0} {P Q : W → Type 0} {m : Script W E A}
      → ((w : W) → P w → Q (m w).1)
      → Triple P Q Q m
  Triple-always {Q = Q} {m = m} h = record { at = λ w p. Leaves-always Q (m w) (h w p) }

  -- Two ways to begin.
  pub Triple-either :
      {A : Type 0} {P P' Q R : W → Type 0} {m : Script W E A}
      → Triple P Q R m
      → Triple P' Q R m
      → Triple (λ w. P w ⊎ P' w) Q R m
  Triple-either h h' = record { at = λ w p. elim p [ inl p ↦ h.at w p | inr p ↦ h'.at w p ] }

module _ {W E : Type 0} {P R : W → Type 0} where
  pub Triple-pure : {A : Type 0} (a : A) → Triple {E = E} P P R (pure a)
  Triple-pure a = record { at = λ w p. p }

  pub Triple-fail : {A : Type 0} (e : E) → Triple {A = A} P R P (fail e)
  Triple-fail e = record { at = λ w p. p }

module _ {W E : Type 0} where
  -- `defer`: it runs after a return and after an error.
  unfoldable pub finally : {A : Type 0} → Script W E A → (W → W) → Script W E A
  finally m f w = let (r, w') = m w in (r, f w')

  finally_lem :
      {A : Type 0} {Q R : W → Type 0} (Q' R' : W → Type 0) (f : W → W) (r : Result E A × W)
      → Leaves Q R r
      → ((w : W) → Q w → Q' (f w))
      → ((w : W) → R w → R' (f w))
      → Leaves {E = E} {A = A} Q' R' (r.0, f r.1)
  finally_lem Q' R' f (ok a, w) h q r = q w h
  finally_lem Q' R' f (err e, w) h q r = r w h

  pub Triple-finally :
      {A : Type 0} {P Q Q' R R' : W → Type 0} {m : Script W E A} (f : W → W)
      → Triple P Q R m
      → ((w : W) → Q w → Q' (f w))
      → ((w : W) → R w → R' (f w))
      → Triple P Q' R' (finally m f)
  unfolding finally
  Triple-finally {Q' = Q'} {R' = R'} {m = m} f h q r = record {
    at = λ w p. finally_lem Q' R' f (m w) (h.at w p) q r;
  }

  pub Triple-when :
      {P Q R : W → Type 0} {m : Script W E Unit} (c : Bool)
      → Triple P Q R m
      → ((w : W) → P w → Q w)
      → Triple P Q R (when c m)
  unfolding when
  Triple-when true h k = record { at = h.at }
  Triple-when false h k = record { at = λ w p. k w p }
