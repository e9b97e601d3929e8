-- ===== src/SelfUpdate/Swap/Laws.antt =====
-- A swap either leaves the executable alone or puts the new file in its place, with the old one
-- kept for a rollback.
use xray_vless_ws_go.Base.{ℕ, ◌≡◌, ◌≢◌, true, none, some, arith, ok, err}
use xray_vless_ws_go.SelfUpdate.Files.{Dir, Os}
use xray_vless_ws_go.SelfUpdate.Swap.{SwapError, atomic_replace}

-- Whatever fails in the swap of two different files, the executable's name still leads to the old
-- one, unchanged.
pub atomic_replace_err :
    (os : Os) (d : Dir) (e t : ℕ) (x : SwapError)
    → d.exec ≡ some e
    → d.tmp ≡ some t
    → e ≢ t
    → (atomic_replace os d).1 ≡ err x
    → ((atomic_replace os d).0.exec ≡ some e) × ((atomic_replace os d).0.inode e ≡ d.inode e)
unfolding atomic_replace
atomic_replace_err os d e t x he ht ne h = ground arith

-- A swap of two different files that succeeds gives the executable's name to the new one, now
-- executable and otherwise as it was, and `.prev` to the old one, unchanged; the temporary name is
-- gone.
pub atomic_replace_ok :
    (os : Os) (d : Dir) (e t : ℕ)
    → d.exec ≡ some e
    → d.tmp ≡ some t
    → e ≢ t
    → (atomic_replace os d).1 ≡ ok tt
    → let d' = (atomic_replace os d).0 in
      (d'.exec ≡ some t)
      × (d'.prev ≡ some e)
      × (d'.tmp ≡ none)
      × (d'.inode e ≡ d.inode e)
      × ((d'.inode t).content ≡ (d.inode t).content)
      × ((d'.inode t).executable ≡ true)
unfolding atomic_replace
atomic_replace_ok os d e t he ht ne h = ground arith
