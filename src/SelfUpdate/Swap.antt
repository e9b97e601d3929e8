-- ===== src/SelfUpdate/Swap.antt =====
-- internal/selfupdate/swap.go. Each step returns the directory that it leaves behind.
pub mod Laws
use xray_vless_ws_go.Base.{ℕ, Bool, true, false, Option, none, some, if◌then◌else◌, Result, ok, err}
use xray_vless_ws_go.SelfUpdate.Files.{File, Dir, Os, write_inode, remove_tmp}

pub data SwapError : Type 0 where
  removing_stale preserving chmod_failed swapping : SwapError

abbrev pub Outcome : Type 0
Outcome = Dir × Result SwapError (Unit {0})

-- os.Rename(tmpPath, execPath).
unfoldable pub rename_step : Os → Dir → Option ℕ → Outcome
rename_step os d none = (d, err swapping)
rename_step os d (some t) =
    if os.renames then (record d { exec = some t; tmp = none }, ok tt) else (d, err swapping)

-- os.Chmod(tmpPath, 0755).
unfoldable pub chmod_step : Os → Dir → Option ℕ → Outcome
unfolding rename_step
chmod_step os d none = (d, err chmod_failed)
chmod_step os d (some t) =
    if os.chmods
    then rename_step os
        (record d { inode = write_inode d.inode t (record (d.inode t) { executable = true }) })
        (some t)
    else (d, err chmod_failed)

-- os.Link(execPath, prevPath).
unfoldable pub link_step : Os → Dir → Option ℕ → Outcome
unfolding chmod_step
link_step os d none = (d, err preserving)
link_step os d (some e) =
    if os.links then chmod_step os (record d { prev = some e }) d.tmp else (d, err preserving)

-- os.Remove(prevPath): a file that does not exist is no error.
unfoldable pub swap_steps : Os → Dir → Outcome
unfolding link_step
swap_steps os d =
    if os.removes_prev
    then link_step os (record d { prev = none }) d.exec
    else (d, err removing_stale)

-- With the deferred os.Remove(tmpPath) on every path.
unfoldable pub atomic_replace : Os → Dir → Outcome
unfolding swap_steps remove_tmp
atomic_replace os d = let (d', r) = swap_steps os d in (remove_tmp os d', r)
