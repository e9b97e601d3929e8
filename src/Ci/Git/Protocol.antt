-- ===== src/Ci/Git/Protocol.antt =====
-- The order of the commands that `UploadFile` gives to git, as an automaton, and that it keeps to it.
use xray_vless_ws_go.Base.{
  ◌≡◌, refl, ◌≢◌, ◌⊎◌, inl, inr, Bool, true, false, List, [], ◌∷◌, Option, none, some, Bytes,
  bytes_eq, bytes_eq_refl, Result, ok, err, if◌then◌else◌,
}
use xray_vless_ws_go.Base.Script.{
  Script, pure, ◌>>◌, wrap, or_else, when, Leaves, Triple, Triple-bind, Triple-wrap, Triple-or_else,
  Triple-weaken, Triple-either, Triple-pure,
}
use xray_vless_ws_go.Ci.Git.{
  Machine, Command, clone, fetch_all, checkout, checkout_remote, checkout_orphan, reset_hard,
  commit, push, force_push, add, rev_parse_head, World, is_none, args, git_result, clone_url,
  run_git, call, checkout_or_create_branch, make_clone, clone_if_missing, upload_file,
}

pub data Phase : Type 0 where
  start cloned fetched not_local not_remote orphan emptied rooted : Phase
  on_branch staged committed pushed finished stopped : Phase

-- The phase behind a command that succeeded, and behind one that failed.
unfoldable pub next : Bytes → Phase → Command × Bool → Option Phase
unfolding bytes_eq
next branch start (clone _ _, done) = some (if done then cloned else stopped)
next branch start (fetch_all, done) = some (if done then fetched else stopped)
next branch cloned (fetch_all, done) = some (if done then fetched else stopped)
next branch fetched (checkout b, done) =
    if bytes_eq b branch then some (if done then on_branch else not_local) else none
next branch not_local (checkout_remote b, done) =
    if bytes_eq b branch then some (if done then on_branch else not_remote) else none
next branch not_remote (checkout_orphan b, done) =
    if bytes_eq b branch then some (if done then orphan else stopped) else none
next branch orphan (reset_hard, done) = some (if done then emptied else stopped)
next branch emptied (commit _, done) = some (if done then rooted else stopped)
next branch rooted (push b, done) =
    if bytes_eq b branch then some (if done then on_branch else stopped) else none
next branch on_branch (add _, done) = some (if done then staged else stopped)
next branch staged (commit _, done) = some (if done then committed else stopped)
next branch committed (force_push b, done) =
    if bytes_eq b branch then some (if done then pushed else stopped) else none
next branch pushed (rev_parse_head, done) = some (if done then finished else stopped)
next branch _ _ = none

-- The phase that a log leads to, when the automaton accepts it.
unfoldable pub replay : Bytes → List (Command × Bool) → Option Phase
unfolding next
replay branch [] = some start
replay branch (c ∷ log) = elim (replay branch log) [ none ↦ none | some p ↦ next branch p c ]

module _ {S : Type 0} (branch : Bytes) where
  abbrev pub At : Phase → World S → Type 0
  At p w = replay branch w.log ≡ some p

  -- The automaton accepts the log, and is not at its end.
  abbrev pub Short : World S → Type 0
  Short w = (p : Phase) × At p w × (p ≢ finished)

module _ {S : Type 0} (m : Machine S) (branch : Bytes) where
  run_git-phase :
      (dir : Bytes) (c : Command) (p q r : Phase) (w : World S)
      → next branch p (c, true) ≡ some q
      → next branch p (c, false) ≡ some r
      → At branch p w
      → Leaves (At branch q) (At branch r) (run_git m dir c w)
  unfolding run_git replay git_result is_none
  run_git-phase dir c p q r w hq hr h = by_reply (m.git dir (args c) w.state).0
    where
      by_reply :
          (reply : Bytes × Option Bytes)
          → Leaves (At branch q) (At branch r) (
            git_result c reply,
            record { log = (c, is_none reply.1) ∷ w.log; state = (m.git dir (args c) w.state).1 },
          )
      by_reply (out, none) = rw h hq
      by_reply (out, some e) = rw h hr

  -- A command whose failure ends the script.
  run_git-step :
      (g : Bytes → Bytes) (dir : Bytes) (c : Command) (p q : Phase)
      → next branch p (c, true) ≡ some q
      → next branch p (c, false) ≡ some stopped
      → Triple (At branch p) (At branch q) (Short branch) (wrap g (run_git m dir c))
  run_git-step g dir c p q hq hr = Triple-wrap g (
      Triple-weaken {R = At branch stopped}
        (record { at = λ w h. run_git-phase dir c p q stopped w hq hr h }) (λ w a. a)
        (λ w a. (stopped, a, λ e. cc)))

  -- A call that runs no command keeps the phase.
  call-step :
      {A : Type 0} (g : Bytes → Bytes) (f : Script S Bytes A) (p : Phase)
      → p ≢ finished
      → Triple (At branch p) (At branch p) (Short branch) (wrap g (call m f))
  call-step {A} g f p ne = Triple-wrap g (record { at = λ w h. by_result (f w.state) w h })
    where
      by_result :
          (r : Result Bytes A × S) (w : World S)
          → At branch p w
          → Leaves (At branch p) (Short branch) (r.0, record { log = w.log; state = r.1 })
      by_result (ok a, s) w h = h
      by_result (err e, s) w h = (p, h, ne)

  -- One of the two attempts of a checkout.
  attempt-step :
      {k : Script (World S) Bytes Unit} (dir : Bytes) (c : Command) (p q : Phase)
      → next branch p (c, true) ≡ some on_branch
      → next branch p (c, false) ≡ some q
      → Triple (At branch q) (At branch on_branch) (Short branch) k
      → Triple
          (At branch p)
          (At branch on_branch)
          (Short branch)
          (or_else (run_git m dir c >> pure tt) k)
  attempt-step dir c p q ht hf rest =
      Triple-or_else
        (Triple-bind {R = At branch q}
          (record { at = λ w h. run_git-phase dir c p on_branch q w ht hf h })
          (λ _. Triple-pure tt))
        rest

  checkout-step :
      (dir : Bytes)
      → Triple
          (At branch fetched)
          (At branch on_branch)
          (Short branch)
          (checkout_or_create_branch m dir branch)
  unfolding checkout_or_create_branch next
  checkout-step dir =
      let same = bytes_eq_refl branch in
      attempt-step dir (checkout branch) fetched not_local (rw same refl) (rw same refl) (
        attempt-step dir (checkout_remote branch) not_local not_remote (rw same refl) (rw same refl)
          (Triple-bind
            (run_git-step _ dir (checkout_orphan branch) not_remote orphan (rw same refl)
              (rw same refl))
            (λ _. Triple-bind (run_git-step _ dir reset_hard orphan emptied refl refl) (λ _.
              Triple-bind (run_git-step _ dir (commit _) emptied rooted refl refl) (λ _.
                Triple-bind
                  (run_git-step _ dir (push branch) rooted on_branch (rw same refl) (rw same refl))
                  (λ _. Triple-pure tt))))))

  -- What the clone leaves: it ran, or there was a working copy.
  abbrev Cloned : World S → Type 0
  Cloned w = At branch cloned w ⊎ At branch start w

  clone-step :
      (token repo dir : Bytes)
      → Triple (At branch start) Cloned (Short branch) (clone_if_missing m token repo dir)
  unfolding clone_if_missing when next
  clone-step token repo dir = record { at = λ w h. by_test w (m.is_missing dir w.state) h }
    where
      by_test :
          (w : World S) (missing : Bool)
          → At branch start w
          → Leaves Cloned
              (Short branch)
              (if missing then (make_clone m token repo dir w) else (ok tt, w))
      by_test w true h =
          (Triple-weaken {Q = At branch cloned} {R = Short branch}
              (Triple-bind (call-step _ (m.mkdir_all (m.dir dir)) start (λ e. cc)) (λ _.
                Triple-bind
                  (run_git-step _ [] (clone (clone_url token repo) dir) start cloned refl refl)
                  (λ _. Triple-pure tt)))
              (λ _ p. inl p) (λ _ p. p)).at
            w h
      by_test w false h = inr h

  upload-step :
      (token repo file rename temp_dir : Bytes)
      → Triple
          (At branch start)
          (At branch finished)
          (Short branch)
          (upload_file m token repo file branch rename temp_dir)
  unfolding upload_file next
  upload-step token repo file rename temp_dir =
      let dir = m.join temp_dir repo in
      let same = bytes_eq_refl branch in
      Triple-bind (clone-step token repo dir) (λ _.
        Triple-bind
          (Triple-either (run_git-step _ dir fetch_all cloned fetched refl refl)
            (run_git-step _ dir fetch_all start fetched refl refl))
          (λ _. Triple-bind (checkout-step dir) (λ _.
            Triple-bind (call-step _ _ on_branch (λ e. cc)) (λ _.
              Triple-bind (call-step _ _ on_branch (λ e. cc)) (λ _.
                Triple-bind (run_git-step _ dir (add _) on_branch staged refl refl) (λ _.
                  Triple-bind (run_git-step _ dir (commit _) staged committed refl refl) (λ _.
                    Triple-bind
                      (run_git-step _ dir (force_push branch) committed pushed (rw same refl)
                        (rw same refl))
                      (λ _.
                        Triple-bind (run_git-step _ dir rev_parse_head pushed finished refl refl)
                          (λ _. Triple-pure _)))))))))

-- Whatever the machine answers, the commands that `UploadFile` runs are accepted by the automaton for
-- its branch: it is at its end when a commit's name is returned, and short of it at an error.
pub upload_file-protocol :
    {S : Type 0} (m : Machine S) (token repo file branch rename temp_dir : Bytes) (s : S)
    → Leaves
        (λ w. replay branch w.log ≡ some finished)
        (λ w. (p : Phase) × (replay branch w.log ≡ some p) × (p ≢ finished))
        (upload_file m token repo file branch rename temp_dir (record { log = []; state = s }))
unfolding replay
upload_file-protocol m token repo file branch rename temp_dir s =
    (upload-step m branch token repo file rename temp_dir).at (record { log = []; state = s }) refl
