-- ===== src/Ci/Git/Token.antt =====
-- The token of the clone's URL, which `runGit` keeps out of what it returns.
use xray_vless_ws_go.Base.{
  ◌≡◌, ap, ap₂, sym, ◌∙◌, true, [], ◌∷◌, ◌++◌, Option, none, some, Bytes, codes, concat, All,
  All-append, append_assoc, append-nil, List, refl, ok, err, arith,
}
use xray_vless_ws_go.Text.Trim.{trim_space}
use xray_vless_ws_go.Ci.Redact.{is_userinfo, mask, redact_credentials}
use xray_vless_ws_go.Ci.Redact.Context.{redact_from-context}
use xray_vless_ws_go.Ci.Redact.Laws.{redact_credentials-hides}
use xray_vless_ws_go.Ci.Git.{
  Machine, clone, World, args, join_spaces, git_result, clone_url, run_git,
}

abbrev pub IsUserinfo : Bytes → Type 0
IsUserinfo = All (λ c. is_userinfo c ≡ true)

-- The redacted arguments of the clone, whose token is not in them.
redact_credentials-clone :
    (token repo dir : Bytes)
    → IsUserinfo token
    → redact_credentials (join_spaces (args (clone (clone_url token repo) dir)))
      ≡ codes "clone https"
        ++ (mask ++ redact_credentials (codes "github.com/" ++ (repo ++ (codes ".git " ++ dir))))
unfolding join_spaces args clone_url
redact_credentials-clone token repo dir h =
    ap redact_credentials (layout token repo dir)
    ∙ redact_credentials-hides (codes "clone https") (codes "github-actions:" ++ token)
        (codes "github.com/" ++ (repo ++ (codes ".git " ++ dir))) (ground arith)
        (All-append (λ c. is_userinfo c ≡ true) (codes "github-actions:") token
          (unfold is_userinfo in ground arith) h)
        (λ e. cc)
  where
    layout :
        (token repo dir : Bytes)
        → (codes "clone"
            ++ (b' '
                ∷ (concat (
                      codes "https://github-actions:"
                      ∷ token
                      ∷ codes "@github.com/"
                      ∷ repo
                      ∷ codes ".git"
                      ∷ [])
                    ++ (b' ' ∷ dir))))
          ≡ codes "clone https"
            ++ (codes "://"
                ++ ((codes "github-actions:" ++ token)
                    ++ b'@' ∷ (codes "github.com/" ++ (repo ++ (codes ".git " ++ dir)))))
    layout token repo dir =
        ap (λ t. codes "clone https://github-actions:" ++ t)
          (append_assoc token (codes "@github.com/" ++ (repo ++ codes ".git")) (b' ' ∷ dir)
            ∙ ap (λ t. token ++ (codes "@github.com/" ++ t))
                (append_assoc repo (codes ".git") (b' ' ∷ dir)))

-- A text in which a URL stands between the pieces.
abbrev pub fill : List Bytes → Bytes → Bytes
fill [] url = []
fill (p ∷ []) url = p
fill (p ∷ q ∷ ps) url = p ++ (url ++ fill (q ∷ ps) url)

abbrev behind_at : Bytes → Bytes
behind_at repo = codes "github.com/" ++ (repo ++ codes ".git")

fill-layout :
    (before piece token repo rest : Bytes)
    → before ++ (piece ++ (clone_url token repo ++ rest))
      ≡ (before ++ (piece ++ codes "https"))
        ++ (codes "://" ++ ((codes "github-actions:" ++ token) ++ b'@' ∷ (behind_at repo ++ rest)))
unfolding clone_url
fill-layout before piece token repo rest = simp (append_assoc, append-nil)

module _ (token token' repo : Bytes) (h : IsUserinfo token) (h' : IsUserinfo token') where
  user-IsUserinfo : (t : Bytes) → IsUserinfo t → IsUserinfo (codes "github-actions:" ++ t)
  unfolding is_userinfo
  user-IsUserinfo t k =
      All-append (λ c. is_userinfo c ≡ true) (codes "github-actions:") t (ground arith) k

  -- The redacted text does not tell which token the URL in it has, wherever it stands.
  redact_credentials-fill :
      (before : Bytes) (pieces : List Bytes)
      → redact_credentials (before ++ fill pieces (clone_url token repo))
        ≡ redact_credentials (before ++ fill pieces (clone_url token' repo))
  unfolding redact_credentials
  redact_credentials-fill before [] = refl
  redact_credentials-fill before (p ∷ []) = refl
  redact_credentials-fill before (p ∷ q ∷ ps) =
      ap redact_credentials (fill-layout before p token repo (fill (q ∷ ps) (clone_url token repo)))
      ∙ redact_from-context (codes "github-actions:" ++ token) (codes "github-actions:" ++ token')
          (behind_at repo ++ fill (q ∷ ps) (clone_url token repo))
          (behind_at repo ++ fill (q ∷ ps) (clone_url token' repo)) (user-IsUserinfo token h)
          (user-IsUserinfo token' h') (λ e. cc) (λ e. cc)
          (redact_credentials-fill (behind_at repo) (q ∷ ps)) 0 (before ++ (p ++ codes "https"))
          (omega arith)
      ∙ sym (
          ap redact_credentials
            (fill-layout before p token' repo (fill (q ∷ ps) (clone_url token' repo))))

git_result-clone :
    (token token' repo dir out out' : Bytes) (e : Option Bytes)
    → IsUserinfo token
    → IsUserinfo token'
    → redact_credentials out ≡ redact_credentials out'
    → git_result (clone (clone_url token repo) dir) (out, e)
      ≡ git_result (clone (clone_url token' repo) dir) (out', e)
unfolding git_result
git_result-clone token token' repo dir out out' none h h' same = ap ok same
git_result-clone token token' repo dir out out' (some e) h h' same =
    ap₂ (λ a o. err (concat (codes "git " ∷ a ∷ codes ": " ∷ e ∷ codes ": " ∷ trim_space o ∷ [])))
      (redact_credentials-clone token repo dir h
        ∙ sym (redact_credentials-clone token' repo dir h'))
      same

-- The clone of a repository with one token or with another, both made of bytes of user information:
-- when git fails alike, or not, and its two outputs differ in nothing but the URL of the clone, which
-- it may spell at any places and any number of times, `runGit` returns the same.
pub run_git-clone :
    {S : Type 0} (m : Machine S) (token token' repo dir : Bytes) (pieces : List Bytes)
    (e : Option Bytes) (w w' : World S)
    → IsUserinfo token
    → IsUserinfo token'
    → (m.git [] (args (clone (clone_url token repo) dir)) w.state).0
      ≡ (fill pieces (clone_url token repo), e)
    → (m.git [] (args (clone (clone_url token' repo) dir)) w'.state).0
      ≡ (fill pieces (clone_url token' repo), e)
    → (run_git m [] (clone (clone_url token repo) dir) w).0
      ≡ (run_git m [] (clone (clone_url token' repo) dir) w').0
unfolding run_git
run_git-clone m token token' repo dir pieces e w w' h h' replies replies' =
    ap (git_result (clone (clone_url token repo) dir)) replies
    ∙ git_result-clone token token' repo dir (fill pieces (clone_url token repo))
        (fill pieces (clone_url token' repo)) e h h'
        (redact_credentials-fill token token' repo h h' [] pieces)
    ∙ sym (ap (git_result (clone (clone_url token' repo) dir)) replies')
