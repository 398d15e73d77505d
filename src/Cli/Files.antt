-- ===== src/Cli/Files.antt =====
-- What internal/pkg/cli/pki.go uses of package os: files with their contents and modes.
use mesh_checker.Base.{ℕ, ◌≡◌, ◌≢◌, Option, none, some, Text, Fallible, ok}

-- The calls of package os that these commands make. A failed write may leave anything in its file.
pub record Files : Type 1 where
  pub State : Type 0
  pub content : State → Text → Option Text
  pub mode : State → Text → Option ℕ
  pub read_file : State → Text → Fallible Text Text
  pub write_file : State → Text → Text → ℕ → State × Option Text
  pub chmod : State → Text → ℕ → State × Option Text

-- What they promise: a write sets the content of its file, and a new mode the mode; neither touches
-- another file.
pub record IsFiles (d : Files) : Type 0 where
  pub read_content :
      (s : d.State) (path : Text) {b : Text} → d.read_file s path ≡ ok b → d.content s path ≡ some b
  pub write_done :
      (s : d.State) (path b : Text) (perm : ℕ)
      → (d.write_file s path b perm).1 ≡ none
      → d.content (d.write_file s path b perm).0 path ≡ some b
  pub write_other :
      (s : d.State) (path b other : Text) (perm : ℕ)
      → other ≢ path
      → d.content (d.write_file s path b perm).0 other ≡ d.content s other
  pub write_other_mode :
      (s : d.State) (path b other : Text) (perm : ℕ)
      → other ≢ path
      → d.mode (d.write_file s path b perm).0 other ≡ d.mode s other
  pub chmod_done :
      (s : d.State) (path : Text) (perm : ℕ)
      → (d.chmod s path perm).1 ≡ none
      → d.mode (d.chmod s path perm).0 path ≡ some perm
  pub chmod_content :
      (s : d.State) (path other : Text) (perm : ℕ)
      → d.content (d.chmod s path perm).0 other ≡ d.content s other
  pub chmod_other :
      (s : d.State) (path other : Text) (perm : ℕ)
      → other ≢ path
      → d.mode (d.chmod s path perm).0 other ≡ d.mode s other
