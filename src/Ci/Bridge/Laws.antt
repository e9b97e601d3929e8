-- ===== src/Ci/Bridge/Laws.antt =====
-- The requests of a dispatch and of a scheduled one, and the branch that it names.
use xray_vless_ws_go.Base.{
  List, ◌≡◌, refl, Bool, ◌&&◌, ◌⊎◌, [], ◌∷◌, ◌++◌, Option, none, some, arith, Bytes, codes, ok,
}
use xray_vless_ws_go.Base.Script.{Script, ◌>>=◌}
use xray_vless_ws_go.Text.Split.Laws.{Lacks}
use xray_vless_ws_go.Ci.Bridge.{
  Request, World, behind_last, branch_of, Runner, request, returning, run_request, payload,
  api_base, dispatch_request, dispatch_result, is_bridging,
}

behind_last-Lacks : (s : Bytes) → Lacks b'/' s → behind_last s ≡ none
unfolding behind_last
behind_last-Lacks [] h = refl
behind_last-Lacks (c ∷ s) (hc, h) = rw (behind_last-Lacks s h) (ground (arith, hc))

behind_last-append : (p s : Bytes) → Lacks b'/' s → behind_last (p ++ b'/' ∷ s) ≡ some s
unfolding behind_last
behind_last-append [] s h = rw (behind_last-Lacks s h) refl
behind_last-append (c ∷ p) s h = rw (behind_last-append p s h) refl

-- The dispatch names what stands behind the last slash of GITHUB_REF: the branch where its name has
-- no slash, and else only the end of the name.
branch_of-append : (p name : Bytes) → Lacks b'/' name → branch_of (p ++ b'/' ∷ name) ≡ name
unfolding branch_of
branch_of-append p name h = rw (branch_of, behind_last-append p name h) refl

module _ {S : Type 0} (runner : Runner S) where
  abbrev Logged : List Request → World S → Type 0
  Logged l w = w.log ≡ l

module _ {S : Type 0} (runner : Runner S) (token : Bytes) where
  abbrev pub get_run : Request
  get_run = run_request runner token (api_base runner) (runner.getenv (codes "GITHUB_RUN_ID"))

  -- The requests so far: none, the one for the run, and the one dispatch behind it.
  abbrev pub Asked : World S → Type 0
  Asked w = w.log ≡ get_run ∷ []

  abbrev pub Dispatched : World S → Type 0
  Dispatched w =
      (id : Bytes) × (body : Bytes) × (payload runner ≡ ok body)
      × (w.log ≡ dispatch_request runner token id body ∷ get_run ∷ [])

  abbrev pub Sent : World S → Type 0
  Sent w = (w.log ≡ []) ⊎ Asked w ⊎ Dispatched w

  abbrev send_dispatch : Bytes → Bytes → Script (World S) Bytes Unit
  send_dispatch id body = request runner (dispatch_request runner token id body) >>= λ answer.
      returning runner (dispatch_result runner answer)

module _ {S : Type 0} (runner : Runner S) where
  abbrev pub token_of : Bytes
  token_of = runner.getenv (codes "GITHUB_TOKEN")

  -- A dispatch that ended well is silent, and any other is logged.
  abbrev pub Reported : Option Bytes × World S → Type 0
  Reported (none, w) = Dispatched runner token_of w
  Reported (some line, w) = Sent runner token_of w

  abbrev pub is_due : Bool → Bool
  is_due elapsed = is_bridging (runner.getenv (codes "BRIDGE_WORKFLOWS")) && elapsed
