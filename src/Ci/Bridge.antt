-- ===== src/Ci/Bridge.antt =====
-- internal/ci/bridge.go. The environment, the HTTP client and encoding/json are arguments, and so is
-- whether the delay elapses before the context is cancelled.
pub mod Laws
use xray_vless_ws_go.Base.{
  ℕ, ◌≡◌, refl, Bool, true, false, not, ◌&&◌, ◌||◌, List, [], ◌∷◌, ◌++◌, Option, none, some, Bytes,
  codes, bytes_eq, concat, Result, ok, err, ◌==◌, if◌then◌else◌,
}
use xray_vless_ws_go.Base.Script.{Script, pure, ◌>>=◌, ◌>>◌}
use xray_vless_ws_go.Text.Decimal.{pos, format_int}
use xray_vless_ws_go.Text.Search.{to_lower}
use xray_vless_ws_go.Xray.Json.{Json, text, map_of}

-- A request with the headers of `setGitHubAPIHeaders`: both have the token.
pub record Request : Type 0 where
  pub is_post : Bool
  pub url : Bytes
  pub authorization : Bytes
  pub accept : Bytes
  pub body : Bytes

unfoldable pub github_request : Bool → Bytes → Bytes → Bytes → Request
github_request is_post url token body = record {
  is_post = is_post;
  url = url;
  authorization = codes "Bearer " ++ token;
  accept = codes "application/vnd.github.v3+json";
  body = body;
}

-- The requests that were sent, the last one first, and the state of the service.
pub record World (S : Type 0) : Type 0 where
  pub log : List Request
  pub state : S

-- What stands behind the last slash, if there is one.
unfoldable pub behind_last : Bytes → Option Bytes
behind_last [] = none
behind_last (c ∷ s) = elim (behind_last s) [
  | some t ↦ some t
  | none ↦ if c == b'/' then some s else none
]

-- The branch of GITHUB_REF.
unfoldable pub branch_of : Bytes → Bytes
unfolding behind_last
branch_of ref = elim (behind_last ref) [ none ↦ ref | some branch ↦ branch ]

unfoldable pub is_bridging : Bytes → Bool
unfolding to_lower
is_bridging value = bytes_eq (to_lower value) (codes "true")

abbrev pub github_api_base : Bytes
github_api_base = codes "https://api.github.com"

-- What `dispatchWorkflow` reads of its surroundings: the workflow's inputs are those of the event's
-- file, where it is there and decodes to some.
pub record Runner (S : Type 0) : Type 0 where
  pub getenv : Bytes → Bytes
  -- The error of `http.NewRequestWithContext`, which sends nothing.
  pub new_request : Request → Option Bytes
  -- The transport's error, or the status and the body.
  pub send : Request → S → Result Bytes (ℕ × Bytes) × S
  -- `workflow_id` of a body, the empty text where it is missing.
  pub decode_run : Bytes → Result Bytes Bytes
  pub event_inputs : Bytes → Option Json
  pub marshal : Json → Result Bytes Bytes

module _ {S : Type 0} (runner : Runner S) where
  abbrev pub request : Request → Script (World S) Bytes (ℕ × Bytes)
  request r w = elim (runner.new_request r) [
    | some e ↦ (err e, w)
    | none ↦
        let (answer, state) = runner.send r w.state in
        (answer, record { log = r ∷ w.log; state = state })
  ]

  abbrev pub returning : {A : Type 0} → Result Bytes A → Script (World S) Bytes A
  returning r w = (r, w)

  abbrev pub run_request : Bytes → Bytes → Bytes → Request
  run_request token api_base run_id =
      github_request false (concat (api_base ∷ codes "/actions/runs/" ∷ run_id ∷ [])) token []

  unfoldable pub workflow_id_in : ℕ × Bytes → Result Bytes Bytes
  unfolding format_int bytes_eq
  workflow_id_in (status, body) =
      if not (status == 200)
      then err (
          concat
            (codes "failed to fetch run: HTTP " ∷ format_int (pos status) ∷ codes ": " ∷ body ∷ []))
      else elim (runner.decode_run body) [
        | err e ↦ err e
        | ok id ↦
            if bytes_eq id [] then err (codes "could not find workflow_id from run") else ok id
      ]

  unfoldable pub fetch_workflow_id : Bytes → Bytes → Bytes → Script (World S) Bytes Bytes
  unfolding workflow_id_in github_request
  fetch_workflow_id token api_base run_id = do
    answer ← request (run_request token api_base run_id)
    returning (workflow_id_in answer)

  unfoldable pub inputs : Bytes → Json
  unfolding bytes_eq
  inputs event_path =
      if bytes_eq event_path []
      then map_of []
      else elim (runner.event_inputs event_path) [ none ↦ map_of [] | some j ↦ j ]

  abbrev pub api_base : Bytes
  api_base = github_api_base ++ (codes "/repos/" ++ runner.getenv (codes "GITHUB_REPOSITORY"))

  abbrev pub dispatch_request : Bytes → Bytes → Bytes → Request
  dispatch_request token workflow_id payload =
      github_request true
        (concat (api_base ∷ codes "/actions/workflows/" ∷ workflow_id ∷ codes "/dispatches" ∷ []))
        token payload

  unfoldable pub payload : Result Bytes Bytes
  unfolding branch_of inputs
  payload = runner.marshal (
      map_of (
        (codes "ref", text (branch_of (runner.getenv (codes "GITHUB_REF"))))
        ∷ (codes "inputs", inputs (runner.getenv (codes "GITHUB_EVENT_PATH")))
        ∷ []))

  unfoldable pub dispatch_result : ℕ × Bytes → Result Bytes (Unit {0})
  unfolding format_int
  dispatch_result (status, body) =
      if status == 204 || status == 200
      then ok tt
      else err (
          concat
            (codes "dispatch failed: HTTP " ∷ format_int (pos status) ∷ codes ": " ∷ body ∷ []))

  unfoldable pub dispatch_workflow : Bytes → Script (World S) Bytes Unit
  unfolding fetch_workflow_id payload dispatch_result github_request
  dispatch_workflow token = do
    workflow_id ← fetch_workflow_id token api_base (runner.getenv (codes "GITHUB_RUN_ID"))
    body ← returning payload
    answer ← request (dispatch_request token workflow_id body)
    returning (dispatch_result answer)

  abbrev pub bridged : Result Bytes (Unit {0}) × World S → Option Bytes × World S
  bridged (ok u, w) = (none, w)
  bridged (err e, w) = (some (codes "[!] Failed to bridge workflow: " ++ e), w)

  -- `ScheduleBridge` with its goroutine: the line that it logs, and the requests.
  unfoldable pub schedule_bridge : (elapsed : Bool) → World S → Option Bytes × World S
  unfolding is_bridging dispatch_workflow
  schedule_bridge elapsed w =
      if is_bridging (runner.getenv (codes "BRIDGE_WORKFLOWS")) && elapsed
      then bridged (dispatch_workflow (runner.getenv (codes "GITHUB_TOKEN")) w)
      else (none, w)
