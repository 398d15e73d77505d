-- ===== src/Config/Files.antt =====
-- internal/pkg/config/config.go and mode.go: loading and saving, over a disk and a JSON codec that
-- the program does not implement.
pub mod Atomic
use mesh_checker.Base.{
  ◌≡◌, ◌≢◌, ◌++◌, Bool, true, false, not, Option, none, some, Text, codes, nat_eq, ◌==◌,
  if◌then◌else◌, ℕ, Fallible, ok, err, ◌>>=◌,
}
use mesh_checker.Config.{Config}

-- `encoding/json` on the schema. The decoder refuses unknown fields.
pub record Json : Type 0 where
  pub marshal : Config → Fallible Text Text
  pub unmarshal : Text → Fallible Text Config
  pub unmarshal-marshal : (c : Config) {b : Text} → marshal c ≡ ok b → unmarshal b ≡ ok c

-- The calls of package os. Each may fail, whatever the file system holds; a failed write may leave
-- anything in the file that it wrote.
pub record Disk : Type 1 where
  pub State : Type 0
  pub content : State → Text → Option Text
  pub mode : State → Text → Option ℕ
  pub read_file : State → Text → Fallible Text Text
  pub write_file : State → Text → Text → State × Option Text
  pub rename : State → Text → Text → State × Option Text
  pub remove : State → Text → State
  pub stat_mode : State → Text → Fallible Text ℕ

-- What the calls promise: a read gives the content; a write and a removal touch one file; a rename
-- replaces its target by the source as a whole, or does nothing to the target.
pub record IsDisk (d : Disk) : Type 0 where
  pub read_content :
      (s : d.State) (path : Text) {b : Text} → d.read_file s path ≡ ok b → d.content s path ≡ some b
  pub write_done :
      (s : d.State) (path b : Text)
      → (d.write_file s path b).1 ≡ none
      → d.content (d.write_file s path b).0 path ≡ some b
  pub write_other :
      (s : d.State) (path b other : Text)
      → other ≢ path
      → d.content (d.write_file s path b).0 other ≡ d.content s other
  pub rename_done :
      (s : d.State) (from to : Text)
      → (d.rename s from to).1 ≡ none
      → d.content (d.rename s from to).0 to ≡ d.content s from
  pub rename_failed :
      (s : d.State) (from to : Text) {e : Text}
      → (d.rename s from to).1 ≡ some e
      → d.content (d.rename s from to).0 to ≡ d.content s to
  pub remove_other :
      (s : d.State) (path other : Text)
      → other ≢ path
      → d.content (d.remove s path) other ≡ d.content s other

pub data FileError : Type 0 where
  read_error decode_error marshal_error write_error rename_error stat_error : Text → FileError
  insecure_mode : ℕ → FileError

-- 0o600
abbrev pub strict_mode : ℕ
strict_mode = 384

module _ (d : Disk) where
  -- `CheckMode`: the permission bits are those of the owner alone.
  unfoldable pub check_mode : d.State → Text → Option FileError
  unfolding nat_eq
  check_mode s path = elim (d.stat_mode s path) [
    | err e ↦ some (stat_error e)
    | ok perm ↦ if not (perm == strict_mode) then some (insecure_mode perm) else none
  ]

module _ (d : Disk) (json : Json) where
  unfoldable pub load : d.State → Text → Fallible FileError Config
  load s path = elim (d.read_file s path) [
    | err e ↦ err (read_error e)
    | ok b ↦ elim (json.unmarshal b) [ err e ↦ err (decode_error e) | ok c ↦ ok c ]
  ]

  abbrev pub tmp_path : Text → Text
  tmp_path path = path ++ codes ".tmp"

  -- From the rename on: a failed rename removes the temporary file.
  finish_save : Text → d.State × Option Text → d.State × Option FileError
  finish_save path (s, none) = (s, none)
  finish_save path (s, some e) = (d.remove s (tmp_path path), some (rename_error e))

  -- From the written temporary file on.
  move_tmp : Text → d.State × Option Text → d.State × Option FileError
  move_tmp path (s, some e) = (s, some (write_error e))
  move_tmp path (s, none) = finish_save path (d.rename s (tmp_path path) path)

  unfoldable pub save : d.State → Text → Config → d.State × Option FileError
  unfolding move_tmp finish_save
  save s path c = elim (json.marshal c) [
    | err e ↦ (s, some (marshal_error e))
    | ok b ↦ move_tmp path (d.write_file s (tmp_path path) b)
  ]
