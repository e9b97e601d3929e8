-- ===== src/SelfUpdate/Files.antt =====
-- The directory of the executable, as far as the update touches it: the executable's name, the same
-- with ".prev", and the temporary file. A name leads to an inode, since `os.Link` gives a second
-- name to the same one. Whether a system call succeeds is the operating system's choice.
use xray_vless_ws_go.Base.{ℕ, Bool, false, [], Option, none, some, Bytes, ◌==◌, if◌then◌else◌}

pub record File : Type 0 where
  pub content : Bytes
  pub executable : Bool

pub record Dir : Type 0 where
  pub exec : Option ℕ
  pub prev : Option ℕ
  pub tmp : Option ℕ
  pub inode : ℕ → File

abbrev pub write_inode : (ℕ → File) → ℕ → File → ℕ → File
write_inode inode n file i = if i == n then file else inode i

-- The calls of `atomicReplace` and its cleanup that the system lets succeed.
pub record Os : Type 0 where
  pub removes_prev : Bool
  pub links : Bool
  pub chmods : Bool
  pub renames : Bool
  pub removes_tmp : Bool

-- os.CreateTemp: a new, empty file with mode 0600, under a name that nothing else has.
unfoldable pub create_temp : Dir → ℕ → Dir
create_temp d fresh = record d {
  tmp = some fresh;
  inode = write_inode d.inode fresh (record { content = []; executable = false });
}

-- os.Remove(tmpPath), whose error nobody reads.
unfoldable pub remove_tmp : Os → Dir → Dir
remove_tmp os d = record d { tmp = if os.removes_tmp then none else d.tmp }
