-- ===== src/Ci/Redact/Laws.antt =====
-- What is left of a credential: nothing.
use xray_vless_ws_go.Base.{
  ℕ, zero, suc, ◌+◌, ◌≡◌, ◌≢◌, refl, ap, sym, subst, ◌∙◌, ◌⊎◌, inl, inr, true, false, [], ◌∷◌, ◌++◌,
  Option, none, some, Bytes, codes, ◌==◌, length, arith, All, Bool-cases, Option-cases,
  append_assoc, length-append,
}
use xray_vless_ws_go.Text.Search.{has_prefix}
use xray_vless_ws_go.Text.Split.Laws.{Lacks}
use xray_vless_ws_go.Ci.Redact.{
  is_userinfo, userinfo_run, match_userinfo, match_slashes, match_credential, mask, redact_from,
  redact_credentials,
}

-- No position of the text has a match of the expression, but for the mask.
abbrev pub IsClean : Bytes → Type 0
IsClean [] = Unit
IsClean (c ∷ s) = ((match_credential (c ∷ s) ≡ none) ⊎ (has_prefix (c ∷ s) mask ≡ true)) × IsClean s

abbrev pub head : Bytes → Option ℕ
head [] = none
head (c ∷ s) = some c

-- A match is a colon and two slashes, and goes on.
match_credential-slashes :
    (c : ℕ) (s : Bytes) (n : ℕ)
    → match_credential (c ∷ s) ≡ some n
    → (c ≡ b':') × ((t : Bytes) × (s ≡ b'/' ∷ b'/' ∷ t))
unfolding match_credential has_prefix
match_credential-slashes c [] n h = absurd (ground arith)
match_credential-slashes c (d ∷ []) n h = absurd (ground arith)
match_credential-slashes c (d ∷ e ∷ t) n h = (ground arith, (t, ground arith))

pub redact_from-none :
    (c : ℕ) (s : Bytes)
    → match_credential (c ∷ s) ≡ none
    → redact_from zero (c ∷ s) ≡ c ∷ redact_from zero s
unfolding redact_from
redact_from-none c s e = rw (redact_from, e) refl

pub redact_from-some :
    (c : ℕ) (s : Bytes) (n : ℕ)
    → match_credential (c ∷ s) ≡ some n
    → redact_from zero (c ∷ s) ≡ mask ++ redact_from n s
unfolding redact_from
redact_from-some c s n e = rw (redact_from, e) refl

pub userinfo_run-cons :
    (c : ℕ) (s t : Bytes)
    → (userinfo_run s).0 ≡ (userinfo_run t).0
    → head (userinfo_run s).1 ≡ head (userinfo_run t).1
    → ((userinfo_run (c ∷ s)).0 ≡ (userinfo_run (c ∷ t)).0)
      × (head (userinfo_run (c ∷ s)).1 ≡ head (userinfo_run (c ∷ t)).1)
unfolding userinfo_run
userinfo_run-cons c s t p q = ground arith

-- The run of userinfo bytes and the byte behind it are the same before and after.
redact_from-run :
    (s : Bytes)
    → ((userinfo_run (redact_from zero s)).0 ≡ (userinfo_run s).0)
      × (head (userinfo_run (redact_from zero s)).1 ≡ head (userinfo_run s).1)
unfolding redact_from userinfo_run
redact_from-run [] = (refl, refl)
redact_from-run (c ∷ s) = elim (Option-cases (match_credential (c ∷ s))) [
  | inl e ↦
      rw (redact_from-none c s e)
        (userinfo_run-cons c (redact_from zero s) s (redact_from-run s).0 (redact_from-run s).1)
  | inr (n, e) ↦
      let (colon, (t, slashes)) = match_credential-slashes c s n e in
      rw (redact_from-some c s n e, colon, slashes) (refl, refl)
]

pub match_userinfo-head :
    (p q : Bytes × Bytes) → p.0 ≡ q.0 → head p.1 ≡ head q.1 → match_userinfo p ≡ match_userinfo q
unfolding match_userinfo
match_userinfo-head (u, []) (v, []) e h = refl
match_userinfo-head (u, []) (v, d ∷ s) e h = cc
match_userinfo-head (u, c ∷ r) (v, []) e h = cc
match_userinfo-head ([], c ∷ r) ([], d ∷ s) e h = refl
match_userinfo-head ([], c ∷ r) (b ∷ v, d ∷ s) e h = cc
match_userinfo-head (a ∷ u, c ∷ r) ([], d ∷ s) e h = cc
match_userinfo-head (a ∷ u, c ∷ r) (b ∷ v, d ∷ s) e h = ground (arith, ap length e)

redact_from-head : (s : Bytes) → head (redact_from zero s) ≡ head s
unfolding redact_from
redact_from-head [] = refl
redact_from-head (c ∷ s) = elim (Option-cases (match_credential (c ∷ s))) [
  | inl e ↦ rw (redact_from-none c s e) refl
  | inr (n, e) ↦ rw (redact_from-some c s n e) (ap some (sym (match_credential-slashes c s n e).0))
]

has_prefix-head : (s : Bytes) (c : ℕ) (p : Bytes) → head s ≢ some c → has_prefix s (c ∷ p) ≡ false
unfolding has_prefix
has_prefix-head [] c p h = refl
has_prefix-head (d ∷ s) c p h = ground arith

redact_from-slash : (s : Bytes) → redact_from zero (b'/' ∷ s) ≡ b'/' ∷ redact_from zero s
unfolding redact_from match_credential
redact_from-slash s = refl

abbrev pub plus_two : Option ℕ → Option ℕ
plus_two o = elim o [ none ↦ none | some n ↦ some (n + 2) ]

-- What stands behind two slashes, and behind one.
match_slashes-behind_two :
    (t : Bytes) → match_slashes (b'/' ∷ b'/' ∷ redact_from zero t) ≡ match_slashes (b'/' ∷ b'/' ∷ t)
unfolding match_slashes has_prefix
match_slashes-behind_two t =
    ap plus_two (match_userinfo-head _ _ (redact_from-run t).0 (redact_from-run t).1)

slash_of_test : {c : ℕ} → (c == b'/') ≡ true → c ≡ b'/'
slash_of_test e = ground arith

match_slashes-none : (s : Bytes) → head s ≢ some b'/' → match_slashes s ≡ none
unfolding match_slashes
match_slashes-none s h = rw (has_prefix-head s b'/' (b'/' ∷ []) h) refl

match_slashes-one : (s : Bytes) → head s ≢ some b'/' → match_slashes (b'/' ∷ s) ≡ none
unfolding match_slashes has_prefix
match_slashes-one s h = rw (has_prefix-head s b'/' [] h) refl

match_slashes-behind_one :
    (s : Bytes) → match_slashes (b'/' ∷ redact_from zero s) ≡ match_slashes (b'/' ∷ s)
match_slashes-behind_one [] = unfold redact_from in refl
match_slashes-behind_one (d ∷ t) = elim (Bool-cases (d == b'/')) [
  | inl e ↦
      subst (λ d. match_slashes (b'/' ∷ redact_from zero (d ∷ t)) ≡ match_slashes (b'/' ∷ d ∷ t))
        (sym (slash_of_test e)) (rw (redact_from-slash t) (match_slashes-behind_two t))
  | inr e ↦
      match_slashes-one _ (rw (redact_from-head (d ∷ t)) (ground (arith, e)))
      ∙ sym (match_slashes-one (d ∷ t) (ground (arith, e)))
]

-- What stands behind a colon is matched before and after, or neither.
redact_from-slashes : (s : Bytes) → match_slashes (redact_from zero s) ≡ match_slashes s
redact_from-slashes [] = unfold redact_from in refl
redact_from-slashes (c ∷ s) = elim (Bool-cases (c == b'/')) [
  | inl e ↦
      subst (λ c. match_slashes (redact_from zero (c ∷ s)) ≡ match_slashes (c ∷ s))
        (sym (slash_of_test e)) (rw (redact_from-slash s) (match_slashes-behind_one s))
  | inr e ↦
      match_slashes-none _ (rw (redact_from-head (c ∷ s)) (ground (arith, e)))
      ∙ sym (match_slashes-none (c ∷ s) (ground (arith, e)))
]

redact_from-IsClean : (skip : ℕ) (s : Bytes) → IsClean (redact_from skip s)
unfolding redact_from
redact_from-IsClean zero [] = tt
redact_from-IsClean (suc skip) [] = tt
redact_from-IsClean (suc skip) (c ∷ s) = redact_from-IsClean skip s
redact_from-IsClean zero (c ∷ s) = elim (Option-cases (match_credential (c ∷ s))) [
  | inl e ↦ rw (redact_from-none c s e) (inl (kept c s e), redact_from-IsClean zero s)
  | inr (n, e) ↦ rw (redact_from-some c s n e) (masked (redact_from n s) (redact_from-IsClean n s))
]
  where
    kept :
        (c : ℕ) (s : Bytes)
        → match_credential (c ∷ s) ≡ none
        → match_credential (c ∷ redact_from zero s) ≡ none
    kept c s e = unfold match_credential in rw (redact_from-slashes s) e

    masked : (t : Bytes) → IsClean t → IsClean (mask ++ t)
    masked t h =
        (inr refl, (inl refl, (inl refl, (inl refl, (inl refl, (inl refl, (inl refl, h)))))))

-- The redacted text holds no user information of a URL, at any place: each match of the expression in
-- it is the mask.
redact_credentials-IsClean : (s : Bytes) → IsClean (redact_credentials s)
unfolding redact_credentials
redact_credentials-IsClean s = redact_from-IsClean zero s

userinfo_run-append :
    (user after : Bytes)
    → All (λ c. is_userinfo c ≡ true) user
    → userinfo_run (user ++ b'@' ∷ after) ≡ (user, b'@' ∷ after)
unfolding userinfo_run
userinfo_run-append [] after h = refl
userinfo_run-append (c ∷ user) after (hc, h) = rw (hc, userinfo_run-append user after h) refl

redact_from-skip :
    (user after : Bytes) (skip : ℕ)
    → skip ≡ length user
    → redact_from skip (user ++ after) ≡ redact_from zero after
unfolding redact_from
redact_from-skip [] after skip e = rw e refl
redact_from-skip (c ∷ user) after zero e = absurd (omega (arith, e))
redact_from-skip (c ∷ user) after (suc skip) e = redact_from-skip user after skip (omega (arith, e))

pub match_slashes-both :
    (t : Bytes) → match_slashes (b'/' ∷ b'/' ∷ t) ≡ plus_two (match_userinfo (userinfo_run t))
unfolding match_slashes has_prefix
match_slashes-both t = elim (Option-cases (match_userinfo (userinfo_run t))) [
  | inl e ↦ rw e refl
  | inr (n, e) ↦ rw e refl
]

match_credential-hit :
    (u : ℕ) (user after : Bytes)
    → All (λ c. is_userinfo c ≡ true) (u ∷ user)
    → match_credential (codes "://" ++ ((u ∷ user) ++ b'@' ∷ after)) ≡ some (length user + 2 + 2)
unfolding match_credential
match_credential-hit u user after h =
    match_slashes-both ((u ∷ user) ++ b'@' ∷ after)
    ∙ ap (λ r. plus_two (match_userinfo r)) (userinfo_run-append (u ∷ user) after h)
    ∙ unfold match_userinfo in refl

pub redact_from-hit :
    (user after : Bytes)
    → All (λ c. is_userinfo c ≡ true) user
    → user ≢ []
    → redact_from zero (codes "://" ++ (user ++ b'@' ∷ after)) ≡ mask ++ redact_from zero after
redact_from-hit [] after h ne = absurd (ne refl)
redact_from-hit (u ∷ user) after h ne =
    redact_from-some b':' (codes "//" ++ ((u ∷ user) ++ b'@' ∷ after)) (length user + 2 + 2)
      (match_credential-hit u user after h)
    ∙ ap (λ t. mask ++ t)
        (ap (λ t. redact_from (length user + 2 + 2) t)
            (sym (append_assoc (codes "//" ++ u ∷ user) (b'@' ∷ []) after))
          ∙ redact_from-skip ((codes "//" ++ u ∷ user) ++ b'@' ∷ []) after _
              (omega (arith, length-append user (b'@' ∷ []))))

-- The user information of the first URL of a text does not reach the redacted text: it is the same
-- for every other.
pub redact_credentials-hides :
    (before user after : Bytes)
    → Lacks b':' before
    → All (λ c. is_userinfo c ≡ true) user
    → user ≢ []
    → redact_credentials (before ++ (codes "://" ++ (user ++ b'@' ∷ after)))
      ≡ before ++ (mask ++ redact_credentials after)
unfolding redact_credentials
redact_credentials-hides [] user after l h ne = redact_from-hit user after h ne
redact_credentials-hides (c ∷ before) user after (lc, l) h ne =
    redact_from-none c (before ++ (codes "://" ++ (user ++ b'@' ∷ after)))
      (unfold match_credential in ground (arith, lc))
    ∙ ap (λ t. c ∷ t) (redact_credentials-hides before user after l h ne)
