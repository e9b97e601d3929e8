-- ===== src/Ci/Watcher/Laws.antt =====
-- Which changes of a file are uploaded, and which are not.
use xray_vless_ws_go.Base.{
  ℕ, zero, suc, ◌+◌, ◌≤◌, ◌<◌, ◌≡◌, ◌≢◌, refl, ap, Option, not, ◌==◌, leb, ◌⊎◌, inl, inr, true,
  false, List, [], ◌∷◌, none, some, arith, All, Bool-cases,
}
use xray_vless_ws_go.Ci.Watcher.{
  upload_debounce, FileState, Attempt, uploaded, failed, Poll, is_changed, is_too_soon, upload,
  check_changed, check_and_upload, watch_file,
}

-- A poll that finds the file as it was at `mtime`, or does not find it.
abbrev pub Finds : ℕ → Poll → Type 0
Finds mtime p = (p.mtime ≡ none) ⊎ (p.mtime ≡ some mtime)

check_and_upload-seen :
    (s : FileState) (p : Poll) (mtime : ℕ)
    → s.last_mtime ≡ some mtime
    → Finds mtime p
    → (check_and_upload s p).1 ≡ 0 × ((check_and_upload s p).0.last_mtime ≡ some mtime)
unfolding check_and_upload
check_and_upload-seen s p mtime h (inl e) = rw e (refl, h)
check_and_upload-seen s p mtime h (inr e) = rw (e, h) (ground arith)

-- A file whose modification time was seen is not uploaded as long as that time stays.
watch_file-seen :
    (s : FileState) (ps : List Poll) (mtime : ℕ)
    → s.last_mtime ≡ some mtime
    → All (Finds mtime) ps
    → (watch_file s ps).1 ≡ 0
unfolding watch_file
watch_file-seen s [] mtime h f = refl
watch_file-seen s (p ∷ ps) mtime h (fp, fps) =
    let (none_now, still) = check_and_upload-seen s p mtime h fp in
    omega (arith, none_now, watch_file-seen (check_and_upload s p).0 ps mtime still fps)

-- A file that is found at most three seconds after an upload, and whose modification time then stays
-- as it was found, is never uploaded again, however long the watcher goes on, also where that time
-- was a new one.
pub watch_file-lost :
    (s : FileState) (p : Poll) (ps : List Poll) (mtime last : ℕ)
    → p.mtime ≡ some mtime
    → s.last_uploaded ≡ some last
    → p.now ≤ last + upload_debounce
    → All (Finds mtime) ps
    → (watch_file s (p ∷ ps)).1 ≡ 0
unfolding watch_file
watch_file-lost s p ps mtime last m u soon f =
    let (none_now, seen) = first in
    omega (arith, none_now, watch_file-seen (check_and_upload s p).0 ps mtime seen f)
  where
    first : ((check_and_upload s p).1 ≡ 0) × ((check_and_upload s p).0.last_mtime ≡ some mtime)
    first = rw (m, u) (ground arith)

Attempt-cases :
    (a : Attempt) → ((now : ℕ) × (a ≡ uploaded now)) ⊎ (a ≡ failed true) ⊎ (a ≡ failed false)
Attempt-cases (uploaded now) = inl (now, refl)
Attempt-cases (failed true) = inr (inl refl)
Attempt-cases (failed false) = inr (inr refl)

upload-le :
    (attempts : ℕ → Attempt) (left i : ℕ) (s : FileState) → (upload attempts left i s).1 ≤ left
unfolding upload
upload-le attempts zero i s = omega arith
upload-le attempts (suc left) i s = elim (Attempt-cases (attempts i)) [
  | inl (now, e) ↦ rw (upload, e) (omega arith)
  | inr (inl e) ↦ rw (upload, e) (omega arith)
  | inr (inr e) ↦ rw (upload, e) (omega (arith, upload-le attempts left (suc i) s))
]

upload-attempts :
    (attempts : ℕ → Attempt) (left i : ℕ) (s : FileState)
    → (0 < (upload attempts (suc left) i s).1) × ((upload attempts (suc left) i s).1 ≤ suc left)
unfolding upload
upload-attempts attempts left i s = elim (Attempt-cases (attempts i)) [
  | inl (now, e) ↦ rw (upload, e) (omega arith, omega arith)
  | inr (inl e) ↦ rw (upload, e) (omega arith, omega arith)
  | inr (inr e) ↦ rw (upload, e) (omega arith, omega (arith, upload-le attempts left (suc i) s))
]

-- The file is as it was found before, or was uploaded at most three seconds ago.
abbrev pub Idle : FileState → ℕ → ℕ → Type 0
Idle s mtime now =
    (s.last_mtime ≡ some mtime)
    ⊎ ((last : ℕ) × (s.last_uploaded ≡ some last) × (now ≤ last + 3000000000))

-- The file has changed, and any upload of it is more than three seconds ago.
abbrev pub Due : FileState → ℕ → ℕ → Type 0
Due s mtime now =
    (s.last_mtime ≢ some mtime)
    × ((last : ℕ) → s.last_uploaded ≡ some last → last + 3000000000 < now)

is_changed-false :
    (s : FileState) (mtime : ℕ) → is_changed s mtime ≡ false → s.last_mtime ≡ some mtime
unfolding is_changed
is_changed-false s mtime h = by_last s.last_mtime h
  where
    by_last :
        (o : Option ℕ)
        → elim o [ none ↦ true | some last ↦ not (mtime == last) ] ≡ false
        → o ≡ some mtime
    by_last none h = cc
    by_last (some last) h = ap some (ground (arith, h))

is_changed-true :
    (s : FileState) (mtime : ℕ) → is_changed s mtime ≡ true → s.last_mtime ≢ some mtime
unfolding is_changed
is_changed-true s mtime h e = absurd (ground (arith, rw e at h))

is_too_soon-true :
    (s : FileState) (now : ℕ)
    → is_too_soon s now ≡ true
    → (last : ℕ) × (s.last_uploaded ≡ some last) × (now ≤ last + 3000000000)
unfolding is_too_soon
is_too_soon-true s now h = by_last s.last_uploaded h
  where
    by_last :
        (o : Option ℕ)
        → elim o [ none ↦ false | some last ↦ leb now (last + upload_debounce) ] ≡ true
        → (last : ℕ) × (o ≡ some last) × (now ≤ last + 3000000000)
    by_last none h = cc
    by_last (some last) h = (last, refl, ground (arith, h))

is_too_soon-false :
    (s : FileState) (now last : ℕ)
    → is_too_soon s now ≡ false
    → s.last_uploaded ≡ some last
    → last + 3000000000 < now
unfolding is_too_soon
is_too_soon-false s now last h e =
    let late : leb now (last + upload_debounce) ≡ false = rw e at h in ground (arith, late)

check_changed-attempts :
    (s : FileState) (p : Poll) (mtime : ℕ)
    → ((check_changed s p mtime).1 ≤ 3)
      × (((check_changed s p mtime).1 ≡ 0) × Idle s mtime p.now
          ⊎ (0 < (check_changed s p mtime).1) × Due s mtime p.now)
unfolding check_changed
check_changed-attempts s p mtime = elim (Bool-cases (is_changed s mtime)) [
  | inr same ↦ rw same (omega arith, inl (refl, inl (is_changed-false s mtime same)))
  | inl changed ↦ elim (Bool-cases (is_too_soon s p.now)) [
    | inl soon ↦ rw (changed, soon) (omega arith, inl (refl, inr (is_too_soon-true s p.now soon)))
    | inr later ↦
        let (positive, bounded) =
          upload-attempts p.attempts 2 0 (record s { last_mtime = some mtime }) in
        rw (changed, later)
          (
            bounded,
            inr (
              positive,
              (is_changed-true s mtime changed, λ last. is_too_soon-false s p.now last later),
            ),
          )
  ]
]

-- A poll that finds the file makes at most three calls of `UploadFile`, and at least one exactly where
-- the modification time is not the one that was seen before and any upload is more than three seconds
-- ago.
pub check_and_upload-attempts :
    (s : FileState) (p : Poll) (mtime : ℕ)
    → p.mtime ≡ some mtime
    → ((check_and_upload s p).1 ≤ 3)
      × (((check_and_upload s p).1 ≡ 0) × Idle s mtime p.now
          ⊎ (0 < (check_and_upload s p).1) × Due s mtime p.now)
unfolding check_and_upload
check_and_upload-attempts s p mtime m =
    rw m (check_changed-attempts s (record p { mtime = some mtime }) mtime)
