-- ===== src/Ci/GitTests.antt =====
-- The theorems on git and on the redaction, each at one upload: the working copy is missing, the
-- branch is not there, and each command does what it is asked to.
use xray_vless_ws_go.Base.{List, ◌∷◌, Bytes, ◌≡◌, ◌≢◌, refl, true, [], ◌++◌, none, some, codes}
use xray_vless_ws_go.Base.Script.{pure, Leaves}
use xray_vless_ws_go.Ci.Redact.{is_userinfo}
use xray_vless_ws_go.Ci.Git.{args, Machine, World, clone, clone_url, run_git, upload_file}
use xray_vless_ws_go.Ci.Git.Protocol.{replay, Phase, finished, upload_file-protocol}
use xray_vless_ws_go.Ci.Git.Token.{fill, run_git-clone}

abbrev machine : Machine Unit
machine = record {
  git = λ dir args s. ((codes "https://x:t@github.com/", none), s);
  is_missing = λ dir s. true;
  mkdir_all = λ dir. pure tt;
  open_file = λ path. pure tt;
  create_file = λ path. pure tt;
  read_from = λ src dst. pure tt;
  close_reader = λ path s. s;
  close_writer = λ path. pure tt;
  dir = λ path. codes "/tmp";
  base = λ path. codes "ws_links.txt";
  join = λ a b. a ++ (codes "/" ++ b);
}

abbrev complaint : List Bytes
complaint =
    codes "remote: see https://docs.github.com\nfatal: unable to access '"
    ∷ codes "': the URL returned 403"
    ∷ []

abbrev start_world : World Unit
start_world = record { log = []; state = tt }

upload_file-protocol_example :
    Leaves
      (λ w. replay (codes "links") w.log ≡ some finished)
      (λ w. (p : Phase) × (replay (codes "links") w.log ≡ some p) × (p ≢ finished))
      (upload_file machine
        (codes "t")
        (codes "a/b")
        (codes "ws_links.txt")
        (codes "links")
        []
        (codes "/tmp")
        start_world)
upload_file-protocol_example =
    upload_file-protocol machine (codes "t") (codes "a/b") (codes "ws_links.txt") (codes "links") []
      (codes "/tmp") tt

-- git cannot reach the repository, and says so with the URL that it was given.
abbrev complain : List Bytes → Bytes
complain (c ∷ url ∷ rest) = fill complaint url
complain _ = []

abbrev complaining : Machine Unit
complaining = record machine {
  git = λ dir args s. ((complain args, some (codes "exit status 128")), s);
}

run_git-clone_example :
    (run_git complaining []
      (clone (clone_url (codes "t") (codes "a/b")) (codes "/tmp"))
      start_world).0
    ≡ (run_git complaining []
        (clone (clone_url (codes "u") (codes "a/b")) (codes "/tmp"))
        start_world).0
unfolding is_userinfo args
run_git-clone_example =
    run_git-clone complaining (codes "t") (codes "u") (codes "a/b") (codes "/tmp") complaint
      (some (codes "exit status 128")) start_world start_world (refl, tt) (refl, tt) refl refl
