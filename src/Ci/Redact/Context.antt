-- ===== src/Ci/Redact/Context.antt =====
-- A credential in its text, whatever stands before it: the redacted text does not depend on it.
use xray_vless_ws_go.Base.{
  ℕ, zero, suc, ◌≤◌, ◌<◌, ◌≡◌, ◌≢◌, refl, ap, sym, ◌∙◌, inl, inr, true, [], ◌∷◌, ◌++◌, some, Bytes,
  codes, length, arith, All, Bool-cases, Option-cases,
}
use xray_vless_ws_go.Text.Search.{has_prefix}
use xray_vless_ws_go.Ci.Redact.{
  is_userinfo, userinfo_run, match_userinfo, match_slashes, match_credential, mask, redact_from,
}
use xray_vless_ws_go.Ci.Redact.Laws.{
  head, userinfo_run-cons, match_userinfo-head, redact_from-none, redact_from-some, redact_from-hit,
}

-- The run of userinfo bytes ends at the first slash, whatever stands behind it.
run-slash :
    (t x y : Bytes)
    → ((userinfo_run (t ++ b'/' ∷ x)).0 ≡ (userinfo_run (t ++ b'/' ∷ y)).0)
      × (head (userinfo_run (t ++ b'/' ∷ x)).1 ≡ head (userinfo_run (t ++ b'/' ∷ y)).1)
unfolding userinfo_run is_userinfo
run-slash [] x y = (refl, refl)
run-slash (c ∷ t) x y =
    userinfo_run-cons c (t ++ b'/' ∷ x) (t ++ b'/' ∷ y) (run-slash t x y).0 (run-slash t x y).1

match_slashes-slash :
    (t x y : Bytes) → match_slashes (t ++ b':' ∷ b'/' ∷ x) ≡ match_slashes (t ++ b':' ∷ b'/' ∷ y)
unfolding match_slashes has_prefix
match_slashes-slash [] x y = refl
match_slashes-slash (d ∷ []) x y = ground arith
match_slashes-slash (d ∷ e ∷ t) x y =
    rw
      (match_userinfo-head (userinfo_run (t ++ b':' ∷ b'/' ∷ x))
        (userinfo_run (t ++ b':' ∷ b'/' ∷ y)) (colon t x y).0 (colon t x y).1)
      refl
  where
    colon :
        (t x y : Bytes)
        → ((userinfo_run (t ++ b':' ∷ b'/' ∷ x)).0 ≡ (userinfo_run (t ++ b':' ∷ b'/' ∷ y)).0)
          × (head (userinfo_run (t ++ b':' ∷ b'/' ∷ x)).1
              ≡ head (userinfo_run (t ++ b':' ∷ b'/' ∷ y)).1)
    colon [] x y =
        userinfo_run-cons b':' (b'/' ∷ x) (b'/' ∷ y) (run-slash [] x y).0 (run-slash [] x y).1
    colon (c ∷ t) x y =
        userinfo_run-cons c (t ++ b':' ∷ b'/' ∷ x) (t ++ b':' ∷ b'/' ∷ y) (colon t x y).0
          (colon t x y).1

match_credential-slash :
    (c : ℕ) (t x y : Bytes)
    → match_credential (c ∷ (t ++ b':' ∷ b'/' ∷ x)) ≡ match_credential (c ∷ (t ++ b':' ∷ b'/' ∷ y))
unfolding match_credential
match_credential-slash c t x y = rw (match_slashes-slash t x y) refl

-- A match ends before that slash.
run_length :
    (t x : Bytes)
    → head (userinfo_run (t ++ b':' ∷ b'/' ∷ x)).1 ≡ some b'@'
    → length (userinfo_run (t ++ b':' ∷ b'/' ∷ x)).0 < length t
unfolding userinfo_run is_userinfo
run_length [] x h = absurd (ground arith)
run_length (c ∷ t) x h = elim (Bool-cases (is_userinfo c)) [
  | inl e ↦ rw (userinfo_run, e) (omega (arith, run_length t x (unfold userinfo_run in rw e at h)))
  | inr e ↦ rw (userinfo_run, e) (omega arith)
]

match_userinfo-some :
    (p : Bytes × Bytes) (n : ℕ)
    → match_userinfo p ≡ some n
    → (head p.1 ≡ some b'@') × (n ≡ suc (length p.0))
unfolding match_userinfo
match_userinfo-some (user, []) n h = cc
match_userinfo-some ([], d ∷ after) n h = cc
match_userinfo-some (u ∷ user, d ∷ after) n h = (ground arith, ground arith)

match_userinfo-le :
    (t x : Bytes) (n : ℕ)
    → match_userinfo (userinfo_run (t ++ b':' ∷ b'/' ∷ x)) ≡ some n
    → n ≤ length t
match_userinfo-le t x n h =
    let (at, size) = match_userinfo-some (userinfo_run (t ++ b':' ∷ b'/' ∷ x)) n h in
    omega (arith, size, run_length t x at)

match_credential-le :
    (c : ℕ) (t x : Bytes) (n : ℕ)
    → match_credential (c ∷ (t ++ b':' ∷ b'/' ∷ x)) ≡ some n
    → n ≤ length t
unfolding match_credential match_slashes has_prefix
match_credential-le c [] x n h = absurd (ground arith)
match_credential-le c (d ∷ []) x n h = absurd (ground arith)
match_credential-le c (d ∷ e ∷ t) x n h =
    elim (Option-cases (match_userinfo (userinfo_run (t ++ b':' ∷ b'/' ∷ x)))) [
      | inl m ↦ absurd (ground (arith, rw m at h))
      | inr (k, m) ↦ let bound = match_userinfo-le t x k m in ground (arith, bound, rw m at h)
    ]

module _ (user user' after after' : Bytes) (h : All (λ c. is_userinfo c ≡ true) user)
    (h' : All (λ c. is_userinfo c ≡ true) user') (ne : user ≢ []) (ne' : user' ≢ [])
    (same : redact_from zero after ≡ redact_from zero after') where
  pub redact_from-context :
      (k : ℕ) (t : Bytes)
      → k ≤ length t
      → redact_from k (t ++ (codes "://" ++ (user ++ b'@' ∷ after)))
        ≡ redact_from k (t ++ (codes "://" ++ (user' ++ b'@' ∷ after')))
  unfolding redact_from
  redact_from-context zero [] b =
      redact_from-hit user after h ne
      ∙ ap (λ t. mask ++ t) same
      ∙ sym (redact_from-hit user' after' h' ne')
  redact_from-context (suc k) [] b = absurd (omega arith)
  redact_from-context (suc k) (c ∷ t) b = redact_from-context k t (omega arith)
  redact_from-context zero (c ∷ t) b =
      let s = t ++ (codes "://" ++ (user ++ b'@' ∷ after)) in
      let s' = t ++ (codes "://" ++ (user' ++ b'@' ∷ after')) in
      let agree : match_credential (c ∷ s) ≡ match_credential (c ∷ s') =
        match_credential-slash c t (b'/' ∷ (user ++ b'@' ∷ after))
          (b'/' ∷ (user' ++ b'@' ∷ after')) in
      elim (Option-cases (match_credential (c ∷ s))) [
        | inl e ↦
            redact_from-none c s e
            ∙ ap (λ r. c ∷ r) (redact_from-context zero t (omega arith))
            ∙ sym (redact_from-none c s' (sym agree ∙ e))
        | inr (n, e) ↦
            redact_from-some c s n e
            ∙ ap (λ r. mask ++ r)
                (redact_from-context n t
                  (match_credential-le c t (b'/' ∷ (user ++ b'@' ∷ after)) n e))
            ∙ sym (redact_from-some c s' n (sym agree ∙ e))
      ]
