-- ===== src/Ci/Git.antt =====
-- internal/ci/gitpush.go: `UploadFile` and what it calls. git and the files are the machine's: an
-- argument with an operation for each call, on a state of its own.
pub mod Protocol
pub mod Token
use xray_vless_ws_go.Base.{
  ◌≡◌, refl, Bool, true, false, List, [], ◌∷◌, ◌++◌, Option, none, some, Bytes, codes, bytes_eq,
  concat, Result, ok, err, if◌then◌else◌,
}
use xray_vless_ws_go.Base.Script.{Script, pure, ◌>>=◌, ◌>>◌, wrap, or_else, when}
use xray_vless_ws_go.Text.Search.{trim_prefix}
use xray_vless_ws_go.Text.Trim.{trim_space}
use xray_vless_ws_go.Ci.Redact.{redact_credentials}

-- What package os, os/exec and path/filepath do: an error is its text.
pub record Machine (S : Type 0) : Type 0 where
  -- `git <args>` in a directory: the combined output, and the error.
  pub git : Bytes → List Bytes → S → (Bytes × Option Bytes) × S
  pub is_missing : Bytes → S → Bool
  pub mkdir_all : Bytes → Script S Bytes Unit
  pub open_file : Bytes → Script S Bytes Unit
  pub create_file : Bytes → Script S Bytes Unit
  -- `out.ReadFrom(in)`, by the paths of the two.
  pub read_from : Bytes → Bytes → Script S Bytes Unit
  pub close_reader : Bytes → S → S
  pub close_writer : Bytes → Script S Bytes Unit
  pub dir : Bytes → Bytes
  pub base : Bytes → Bytes
  pub join : Bytes → Bytes → Bytes

-- The commands of git that the source writes out as lists of arguments.
pub data Command : Type 0 where
  clone : (url dir : Bytes) → Command
  fetch_all : Command
  checkout checkout_remote checkout_orphan : (branch : Bytes) → Command
  reset_hard : Command
  commit : (message : Bytes) → Command
  push force_push : (branch : Bytes) → Command
  add : (file : Bytes) → Command
  rev_parse_head : Command

unfoldable pub args : Command → List Bytes
args (clone url dir) = codes "clone" ∷ url ∷ dir ∷ []
args fetch_all = codes "fetch" ∷ codes "--all" ∷ []
args (checkout branch) = codes "checkout" ∷ branch ∷ []
args (checkout_remote branch) =
    codes "checkout" ∷ codes "-b" ∷ branch ∷ (codes "origin/" ++ branch) ∷ []
args (checkout_orphan branch) = codes "checkout" ∷ codes "--orphan" ∷ branch ∷ []
args reset_hard = codes "reset" ∷ codes "--hard" ∷ []
args (commit message) =
    codes "-c"
    ∷ codes "user.email=xray-vless-ws-go-ci@users.noreply.github.com"
    ∷ codes "-c"
    ∷ codes "user.name=xray-vless-ws-go CI"
    ∷ codes "commit"
    ∷ codes "--allow-empty"
    ∷ codes "-m"
    ∷ message
    ∷ []
args (push branch) = codes "push" ∷ codes "origin" ∷ branch ∷ []
args (force_push branch) = codes "push" ∷ codes "--force" ∷ codes "origin" ∷ branch ∷ []
args (add file) = codes "add" ∷ file ∷ []
args rev_parse_head = codes "rev-parse" ∷ codes "HEAD" ∷ []

-- `strings.Join(args, " ")`.
unfoldable pub join_spaces : List Bytes → Bytes
join_spaces [] = []
join_spaces (x ∷ []) = x
join_spaces (x ∷ y ∷ xs) = x ++ (b' ' ∷ join_spaces (y ∷ xs))

-- The machine's state, and the commands run so far, each with whether it succeeded, the last one
-- first.
pub record World (S : Type 0) : Type 0 where
  pub log : List (Command × Bool)
  pub state : S

unfoldable pub is_none : Option Bytes → Bool
is_none none = true
is_none (some e) = false

unfoldable pub clone_url : Bytes → Bytes → Bytes
clone_url token repo =
    concat
      (codes "https://github-actions:" ∷ token ∷ codes "@github.com/" ∷ repo ∷ codes ".git" ∷ [])

-- `runGit`'s results, by git's output and error.
unfoldable pub git_result : Command → Bytes × Option Bytes → Result Bytes Bytes
unfolding args join_spaces redact_credentials trim_space
git_result c (out, none) = ok (redact_credentials out)
git_result c (out, some e) =
    let safe_out = redact_credentials out in
    let safe_args = redact_credentials (join_spaces (args c)) in
    err (concat (codes "git " ∷ safe_args ∷ codes ": " ∷ e ∷ codes ": " ∷ trim_space safe_out ∷ []))

-- `fmt.Errorf("<text>: %w", err)`.
abbrev pub prefixed : List Bytes → Bytes → Bytes
prefixed text e = concat text ++ (codes ": " ++ e)

module _ {S : Type 0} (m : Machine S) where
  unfoldable pub run_git : Bytes → Command → Script (World S) Bytes Bytes
  unfolding git_result is_none args
  run_git dir c w =
      let (reply, state) = m.git dir (args c) w.state in
      (git_result c reply, record { log = (c, is_none reply.1) ∷ w.log; state = state })

  -- A call that runs no command.
  abbrev pub call : {A : Type 0} → Script S Bytes A → Script (World S) Bytes A
  call f w = let (r, state) = f w.state in (r, record { log = w.log; state = state })

  -- `copyFile`: what it opened is closed on every path.
  unfoldable pub copy_file : Bytes → Bytes → Script S Bytes Unit
  copy_file src dst s =
      let (opened, s₁) = m.open_file src s in
      elim opened [
        | err e ↦ (err e, s₁)
        | ok _ ↦
            let (created, s₂) = m.create_file dst s₁ in
            elim created [
              | err e ↦ (err e, m.close_reader src s₂)
              | ok _ ↦
                  let (copied, s₃) = m.read_from src dst s₂ in
                  let (closed, s₄) = m.close_writer dst s₃ in
                  (elim copied [ err e ↦ err e | ok _ ↦ closed ], m.close_reader src s₄)
            ]
      ]

  unfoldable pub checkout_or_create_branch : Bytes → Bytes → Script (World S) Bytes Unit
  unfolding run_git
  checkout_or_create_branch dir branch = or_else (run_git dir (checkout branch) >> pure tt) (
      or_else (run_git dir (checkout_remote branch) >> pure tt) (do
        wrap (prefixed (codes "ci: creating orphan branch " ∷ branch ∷ []))
            (run_git dir (checkout_orphan branch))
        wrap (prefixed (codes "ci: reset --hard on orphan branch" ∷ [])) (run_git dir reset_hard)
        wrap (prefixed (codes "ci: initial orphan commit" ∷ []))
            (run_git dir (commit (codes "Initial empty commit on orphan branch")))
        wrap (prefixed (codes "ci: pushing new orphan branch " ∷ branch ∷ []))
            (run_git dir (push branch))
        pure tt))

  -- Where the file goes in the working copy.
  unfoldable pub destination : Bytes → Bytes → Bytes
  unfolding trim_prefix bytes_eq
  destination file rename =
      if bytes_eq rename [] then m.base file else trim_prefix rename (codes "/")

  abbrev pub make_clone : Bytes → Bytes → Bytes → Script (World S) Bytes Unit
  make_clone token repo dir = do
    wrap (prefixed (codes "ci: creating " ∷ m.dir dir ∷ [])) (call (m.mkdir_all (m.dir dir)))
    wrap (prefixed (codes "ci: cloning " ∷ repo ∷ []))
        (run_git [] (clone (clone_url token repo) dir))
    pure tt

  unfoldable pub clone_if_missing : Bytes → Bytes → Bytes → Script (World S) Bytes Unit
  unfolding run_git clone_url
  clone_if_missing token repo dir w = when (m.is_missing dir w.state) (make_clone token repo dir) w

  unfoldable pub upload_file :
      (token repo file branch rename temp_dir : Bytes) → Script (World S) Bytes Bytes
  unfolding run_git clone_if_missing checkout_or_create_branch destination copy_file trim_space
  upload_file token repo file branch rename temp_dir =
      let dir = m.join temp_dir repo in
      let dest = destination file rename in
      let dest_path = m.join dir dest in
      do
        clone_if_missing token repo dir
        wrap (prefixed (codes "ci: fetch --all" ∷ [])) (run_git dir fetch_all)
        checkout_or_create_branch dir branch
        wrap (prefixed (codes "ci: creating destination dir for " ∷ dest ∷ []))
            (call (m.mkdir_all (m.dir dest_path)))
        wrap (prefixed (codes "ci: copying " ∷ file ∷ codes " to " ∷ dest_path ∷ []))
            (call (copy_file file dest_path))
        wrap (prefixed (codes "ci: git add " ∷ dest ∷ [])) (run_git dir (add dest))
        wrap (prefixed (codes "ci: git commit" ∷ [])) (
            run_git dir (
              commit (concat (codes "Add " ∷ file ∷ codes " to " ∷ branch ∷ codes " branch" ∷ []))))
        wrap (prefixed (codes "ci: force-pushing " ∷ branch ∷ [])) (run_git dir (force_push branch))
        out ← wrap (prefixed (codes "ci: rev-parse HEAD" ∷ [])) (run_git dir rev_parse_head)
        pure (trim_space out)
