-- ===== src/SelfUpdate/Update/Safety.antt =====
-- What an update and a rollback do to the executable, whatever fails on the way.
use xray_vless_ws_go.Base.{
  ℕ, ◌≡◌, ◌≢◌, refl, ap, sym, ◌∙◌, subst, ◌⊎◌, inl, inr, Bool, true, false, not, List, Option, none,
  some, arith, Bytes, codes, bytes_eq, if◌then◌else◌, Bool-cases, Option-cases, Result, ok, err,
}
use xray_vless_ws_go.SelfUpdate.Files.{Dir, create_temp, remove_tmp}
use xray_vless_ws_go.SelfUpdate.Swap.{SwapError, atomic_replace}
use xray_vless_ws_go.SelfUpdate.Swap.Laws.{atomic_replace_err, atomic_replace_ok}
use xray_vless_ws_go.SelfUpdate.Sums.{
  Asset, UpdateError, latest_release, fetch_expected_hash, download_and_verify, restart_failed,
  not_writable, no_previous,
}
use xray_vless_ws_go.SelfUpdate.Sums.Laws.{
  OnlyContent, download_and_verify-OnlyContent, download_and_verify-ok,
}
use xray_vless_ws_go.SelfUpdate.Update.{
  Machine, Done, up_to_date, restarted, no_unit, restart, after_swap, after_verify, install,
  pick_assets, with_release, run, rollback,
}

-- The executable is still the old file, unchanged.
abbrev pub Untouched : Dir → ℕ → Dir → Type 0
Untouched d e d' = (d'.exec ≡ some e) × (d'.inode e ≡ d.inode e)

restart_cases :
    (m : Machine)
    → (restart m ≡ ok restarted) ⊎ (restart m ≡ ok no_unit) ⊎ (restart m ≡ err restart_failed)
unfolding restart
restart_cases m = ground arith

create_temp-elsewhere :
    (d : Dir) (fresh i : ℕ) → i ≢ fresh → (create_temp d fresh).inode i ≡ d.inode i
unfolding create_temp
create_temp-elsewhere d fresh i h = ground arith

module _ (sha256_hex : Bytes → Bytes) (m : Machine) (d : Dir) (e : ℕ) where
  -- The executable is a new, executable file with the digest that SHA256SUMS lists for the asset,
  -- and `.prev` leads to the old file, unchanged.
  pub record Installed (d' : Dir) : Type 0 where
    pub new_exec : d'.exec ≡ some m.fresh
    pub runs : (d'.inode m.fresh).executable ≡ true
    pub verified :
        fetch_expected_hash m.sums m.asset_name ≡ ok (sha256_hex (d'.inode m.fresh).content)
    pub kept : (d'.prev ≡ some e) × (d'.inode e ≡ d.inode e)
    pub clean : d'.tmp ≡ none

  -- The new file is installed, or nothing happened to the executable; the first wherever `Run`
  -- reports an update or a failed restart, and the second on every other error.
  abbrev pub Safe : Dir × Result UpdateError Done → Type 0
  Safe (d', ok (up_to_date v)) = Untouched d e d'
  Safe (d', ok restarted) = Installed d'
  Safe (d', ok no_unit) = Installed d'
  Safe (d', err x) = Untouched d e d' ⊎ (Installed d' × (x ≡ restart_failed))

  restart-Safe : (d' : Dir) → Installed d' → Safe (d', restart m)
  restart-Safe d' h = elim (restart_cases m) [
    | inl e₁ ↦ subst (λ r. Safe (d', r)) (sym e₁) h
    | inr (inl e₂) ↦ subst (λ r. Safe (d', r)) (sym e₂) h
    | inr (inr e₃) ↦ subst (λ r. Safe (d', r)) (sym e₃) (inr (h, refl))
  ]

  after_swap-Safe :
      (o : Dir × Result SwapError (Unit {0}))
      → ((x : SwapError) → o.1 ≡ err x → Untouched d e o.0)
      → (o.1 ≡ ok tt → Installed o.0)
      → Safe (after_swap m o)
  unfolding after_swap
  after_swap-Safe (d', err x) bad good = inl (bad x refl)
  after_swap-Safe (d', ok _) bad good = restart-Safe d' (good refl)

  module _ (old : d.exec ≡ some e) (apart : e ≢ m.fresh) where
    -- The swap of a verified download.
    replace-Safe :
        (d₁ : Dir)
        → d₁.exec ≡ some e
        → d₁.tmp ≡ some m.fresh
        → d₁.inode e ≡ d.inode e
        → fetch_expected_hash m.sums m.asset_name ≡ ok (sha256_hex (d₁.inode m.fresh).content)
        → Safe (after_swap m (atomic_replace m.os d₁))
    replace-Safe d₁ exec tmp same hash =
        after_swap-Safe (atomic_replace m.os d₁)
          (λ x h.
            let left = atomic_replace_err m.os d₁ e m.fresh x exec tmp apart h in
            (left.0, left.1 ∙ same))
          (λ h.
            let done = atomic_replace_ok m.os d₁ e m.fresh exec tmp apart h in
            record {
              new_exec = done.0;
              runs = done.5;
              verified = hash ∙ ap (λ c. ok (sha256_hex c)) (sym done.4);
              kept = (done.1, done.3 ∙ same);
              clean = done.2;
            })

    after_verify-Safe :
        (o : Dir × Result UpdateError (Unit {0}))
        → OnlyContent m.fresh (create_temp d m.fresh) o.0
        → (o.1 ≡ ok tt
            → fetch_expected_hash m.sums m.asset_name ≡ ok (sha256_hex (o.0.inode m.fresh).content))
        → Safe (after_verify m o)
    unfolding after_verify create_temp
    after_verify-Safe (d₁, err x) only hash = inl (
        unfold remove_tmp in
        (only.names.0 ∙ old, only.others e apart ∙ create_temp-elsewhere d m.fresh e apart))
    after_verify-Safe (d₁, ok _) only hash =
        replace-Safe d₁ (only.names.0 ∙ old) only.names.2
          (only.others e apart ∙ create_temp-elsewhere d m.fresh e apart) (hash refl)

    install-Safe : Safe (install sha256_hex m d)
    unfolding install
    install-Safe = elim (Bool-cases m.creates_temp) [
      | inl made ↦
          subst (λ b. Safe (if b then download else refused)) (sym made)
            (after_verify-Safe verified
              (download_and_verify-OnlyContent sha256_hex m.sums m.asset m.asset_name m.opens
                m.reads (create_temp d m.fresh) m.fresh)
              (download_and_verify-ok sha256_hex m.sums m.asset m.asset_name m.opens m.reads
                (create_temp d m.fresh) m.fresh))
      | inr not_made ↦
          subst (λ b. Safe (if b then download else refused)) (sym not_made) (inl (old, refl))
    ]
      where
        verified : Dir × Result UpdateError (Unit {0})
        verified =
            download_and_verify sha256_hex m.sums m.asset m.asset_name m.opens m.reads
              (create_temp d m.fresh) m.fresh

        download : Dir × Result UpdateError Done
        download = after_verify m verified

        refused : Dir × Result UpdateError Done
        refused = (d, err not_writable)

    pick_assets-Safe : (asset sums : Option Asset) → Safe (pick_assets sha256_hex m d asset sums)
    unfolding pick_assets
    pick_assets-Safe none sums = inl (old, refl)
    pick_assets-Safe (some a) none = inl (old, refl)
    pick_assets-Safe (some a) (some b) = install-Safe

    if_Safe :
        (b : Bool) (x y : Dir × Result UpdateError Done)
        → Safe x
        → Safe y
        → Safe (if b then x else y)
    if_Safe true x y hx hy = hx
    if_Safe false x y hx hy = hy

    with_release-Safe :
        (r : Result UpdateError (Bytes × List Asset)) → Safe (with_release sha256_hex m d r)
    unfolding with_release
    with_release-Safe (err x) = inl (old, refl)
    with_release-Safe (ok (tag, assets)) =
        if_Safe (bytes_eq m.current_version (codes "dev")) _ _ (pick_assets-Safe _ _)
          (if_Safe (bytes_eq m.current_version tag) _ _ (old, refl) (pick_assets-Safe _ _))

    run-Safe' : Safe (run sha256_hex m d)
    unfolding run
    run-Safe' = if_Safe m.windows _ _ (inl (old, refl)) (
        if_Safe (not m.finds_executable) _ _ (inl (old, refl)) (
          if_Safe (not m.resolves_symlinks) _ _ (inl (old, refl))
            (with_release-Safe (latest_release m.release))))

-- Where the executable's name leads to a file, and the temporary file is another one, an update
-- never leaves anything but the old executable, unchanged, or a new one that is executable, has
-- the listed digest, and has the old one beside it as `.prev`. The new one is there when an update
-- is reported, and also where only the restart failed; on every other error the old one is still
-- in place.
pub run-Safe :
    (sha256_hex : Bytes → Bytes) (m : Machine) (d : Dir) (e : ℕ)
    → d.exec ≡ some e
    → e ≢ m.fresh
    → Safe sha256_hex m d e (run sha256_hex m d)
run-Safe sha256_hex m d e old apart = run-Safe' sha256_hex m d e old apart

-- A rollback right after an update that installed the new file brings the old executable back,
-- unchanged, and a second rollback finds nothing to go back to and changes nothing. The rollback
-- is one on a system other than Windows whose calls before the restart succeed, and the new file is
-- another one than the old.
pub rollback-Installed :
    (sha256_hex : Bytes → Bytes) (m m' : Machine) (d d' : Dir) (e : ℕ)
    → Installed sha256_hex m d e d'
    → e ≢ m.fresh
    → m'.windows ≡ false
    → m'.finds_executable ≡ true
    → m'.resolves_symlinks ≡ true
    → m'.stats_prev ≡ true
    → m'.creates_temp ≡ true
    → m'.os.renames ≡ true
    → let d₁ = (rollback m' d').0 in
      Untouched d e d₁ × (d₁.prev ≡ none) × (rollback m' d₁ ≡ (d₁, err no_previous))
unfolding rollback
rollback-Installed sha256_hex m m' d d' e h apart w f r s c n =
    (((ground arith), (ground arith)), (ground arith), (ground arith))

-- Whatever a rollback meets, it changes nothing, or it gives the executable's name to the file that
-- was `.prev`, whose own name is then gone; no file's content changes.
rollback-inode :
    (m : Machine) (d : Dir)
    → ((rollback m d).0 ≡ d)
      ⊎ ((p : ℕ) × (d.prev ≡ some p) × ((rollback m d).0 ≡ record d { exec = some p; prev = none }))
unfolding rollback
rollback-inode m d = elim (Option-cases d.prev) [
  | inl h ↦ inl (rw h (ground arith))
  | inr (p, h) ↦ rw h (ground arith)
]
