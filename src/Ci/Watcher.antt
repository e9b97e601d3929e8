-- ===== src/Ci/Watcher.antt =====
-- internal/ci/watcher.go: `checkAndUpload`, the polls of one file and those of all. Times are clock readings in
-- nanoseconds; what `os.Stat` and `UploadFile` answer is an argument.
pub mod Laws
use xray_vless_ws_go.Base.{
  ℕ, zero, suc, ◌+◌, ◌*◌, Bool, true, false, not, List, [], ◌∷◌, Option, none, some, Bytes,
  bytes_eq, ◌||◌, ◌==◌, leb, if◌then◌else◌,
}

abbrev pub upload_debounce : ℕ
upload_debounce = 3 * 1000000000

abbrev pub upload_retries : ℕ
upload_retries = 3

-- `last_mtime` is `none` before the first one, and `last_uploaded` before the first upload: since the
-- zero time there is always more than the debounce interval.
pub record FileState : Type 0 where
  pub last_mtime : Option ℕ
  pub last_uploaded : Option ℕ

abbrev pub new_state : FileState
new_state = record { last_mtime = none; last_uploaded = none }

-- A call of `UploadFile`: it succeeds, with the clock's reading after it, or it fails, and then the
-- context is done or not before the next attempt.
pub data Attempt : Type 0 where
  uploaded : ℕ → Attempt
  failed : Bool → Attempt

-- One poll of a file: its modification time, `none` where it cannot be found, the clock's reading,
-- and the attempts in turn.
pub record Poll : Type 0 where
  pub mtime : Option ℕ
  pub now : ℕ
  pub attempts : ℕ → Attempt

unfoldable pub is_changed : FileState → ℕ → Bool
is_changed s mtime = elim s.last_mtime [ none ↦ true | some last ↦ not (mtime == last) ]

unfoldable pub is_too_soon : FileState → ℕ → Bool
is_too_soon s now = elim s.last_uploaded [
  | none ↦ false
  | some last ↦ leb now (last + upload_debounce)
]

-- The loop over the attempts, of which the first number is left and the second is the next. It
-- returns how many calls of `UploadFile` it makes.
unfoldable pub upload : (ℕ → Attempt) → ℕ → ℕ → FileState → FileState × ℕ
upload attempts zero i s = (s, 0)
upload attempts (suc left) i s =
    let rest = upload attempts left (suc i) s in
    elim (attempts i) [
      | uploaded now ↦ (record s { last_uploaded = some now }, 1)
      | failed is_done ↦ if is_done then (s, 1) else (rest.0, suc rest.1)
    ]

unfoldable pub check_changed : FileState → Poll → ℕ → FileState × ℕ
unfolding is_changed is_too_soon upload
check_changed s p mtime =
    let s' = record s { last_mtime = some mtime } in
    if not (is_changed s mtime)
    then (s', 0)
    else if is_too_soon s p.now
    then (s', 0)
    else upload p.attempts upload_retries 0 s'

unfoldable pub check_and_upload : FileState → Poll → FileState × ℕ
unfolding check_changed
check_and_upload s p = elim p.mtime [ none ↦ (s, 0) | some mtime ↦ check_changed s p mtime ]

-- The polls of `WatchAndUpload` for one file, and the calls of `UploadFile` in all.
unfoldable pub watch_file : FileState → List Poll → FileState × ℕ
unfolding check_and_upload
watch_file s [] = (s, 0)
watch_file s (p ∷ ps) =
    let (s', n) = check_and_upload s p in let rest = watch_file s' ps in (rest.0, n + rest.1)

unfoldable pub watch_each : List (List Poll) → List (FileState × ℕ)
unfolding watch_file
watch_each [] = []
watch_each (polls ∷ files) = watch_file new_state polls ∷ watch_each files

-- `WatchAndUpload` of files with different paths, by their polls until the context is done: `none`
-- where the token or the repository is missing, which is logged.
unfoldable pub watch_and_upload :
    (token repo : Bytes) → List (List Poll) → Option (List (FileState × ℕ))
unfolding watch_each
watch_and_upload token repo files =
    if bytes_eq token [] || bytes_eq repo [] then none else some (watch_each files)
