-- ===== src/Ci/Tests.antt =====
-- The theorems on the watcher, each at one file.
use xray_vless_ws_go.Base.{◌≤◌, ◌<◌, ◌≡◌, refl, ◌⊎◌, inr, [], ◌∷◌, some, arith}
use xray_vless_ws_go.Ci.Watcher.{FileState, uploaded, Poll, check_and_upload, watch_file}
use xray_vless_ws_go.Ci.Watcher.Laws.{Idle, Due, watch_file-lost, check_and_upload-attempts}

-- Uploaded at 10 seconds, and found changed at 12 seconds and ever after.
abbrev state : FileState
state = record { last_mtime = some 1; last_uploaded = some 10000000000 }

abbrev poll : Poll
poll = record { mtime = some 2; now = 12000000000; attempts = λ i. uploaded 12000000001 }

abbrev later : Poll
later = record { mtime = some 2; now = 60000000000; attempts = λ i. uploaded 60000000001 }

watch_file-lost_example : (watch_file state (poll ∷ later ∷ [])).1 ≡ 0
watch_file-lost_example =
    watch_file-lost state poll (later ∷ []) 2 10000000000 refl refl (omega arith) (inr refl, tt)

check_and_upload-attempts_example :
    ((check_and_upload state later).1 ≤ 3)
    × (((check_and_upload state later).1 ≡ 0) × Idle state 2 60000000000
        ⊎ (0 < (check_and_upload state later).1) × Due state 2 60000000000)
check_and_upload-attempts_example = check_and_upload-attempts state later 2 refl
