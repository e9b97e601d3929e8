-- ===== src/Ci/Redact.antt =====
-- internal/ci/gitpush.go: `redactCredentials` with its regular expression. The class of the userinfo
-- leaves no choice, so the leftmost match is the only one at its position.
pub mod Context
pub mod Laws
use xray_vless_ws_go.Base.{
  ℕ, zero, suc, ◌+◌, ◌≡◌, refl, Bool, not, ◌&&◌, ◌||◌, List, [], ◌∷◌, ◌++◌, Option, none, some,
  Bytes, codes, ◌==◌, if◌then◌else◌, drop, length,
}
use xray_vless_ws_go.Text.Search.{has_prefix}

-- `[^/@\s]`.
unfoldable pub is_userinfo : ℕ → Bool
is_userinfo c = not (c == b'/' || c == b'@' || c == b' ' || c == 9 || c == 10 || c == 12 || c == 13)

-- The longest run of such bytes, and what stands behind it.
unfoldable pub userinfo_run : Bytes → Bytes × Bytes
unfolding is_userinfo
userinfo_run [] = ([], [])
userinfo_run (c ∷ s) =
    let rest : Bytes × Bytes = (c ∷ (userinfo_run s).0, (userinfo_run s).1) in
    if is_userinfo c then rest else ([], c ∷ s)

-- `[^/@\s]+@`: the length of the match.
unfoldable pub match_userinfo : Bytes × Bytes → Option ℕ
match_userinfo (user, []) = none
match_userinfo ([], d ∷ after) = none
match_userinfo (u ∷ user, d ∷ after) = if d == b'@' then some (length user + 2) else none

-- `//[^/@\s]+@`.
unfoldable pub match_slashes : Bytes → Option ℕ
unfolding has_prefix match_userinfo userinfo_run
match_slashes s =
    if has_prefix s (codes "//")
    then elim (match_userinfo (userinfo_run (drop 2 s))) [ none ↦ none | some n ↦ some (n + 2) ]
    else none

-- The whole expression at the front of a text: the length of the match behind its first byte.
unfoldable pub match_credential : Bytes → Option ℕ
unfolding match_slashes
match_credential [] = none
match_credential (c ∷ s) = if c == b':' then match_slashes s else none

abbrev pub mask : Bytes
mask = codes "://***@"

-- ReplaceAllString; `skip` bytes still belong to the last match.
unfoldable pub redact_from : ℕ → Bytes → Bytes
unfolding match_credential
redact_from skip [] = []
redact_from (suc skip) (c ∷ s) = redact_from skip s
redact_from zero (c ∷ s) = elim (match_credential (c ∷ s)) [
  | none ↦ c ∷ redact_from zero s
  | some n ↦ mask ++ redact_from n s
]

unfoldable pub redact_credentials : Bytes → Bytes
unfolding redact_from
redact_credentials s = redact_from zero s

redacts : redact_credentials (codes "at https://u:p@h/x://a@b") ≡ codes "at https://***@h/x://***@b"
unfolding redact_credentials match_credential
redacts = refl
