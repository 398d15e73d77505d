-- ===== src/Cli/Mutate/Strict.antt =====
-- `saveStrict` of internal/pkg/cli/configio.go: saving, and the mode of the file.
use mesh_checker.Base.{
  ℕ, ◌≡◌, ◌≢◌, ◌∙◌, inl, inr, Option, none, some, Text, ok, nat_eq, arith, Fallible-cases,
}
use mesh_checker.Config.{Config}
use mesh_checker.Config.Files.{
  Json, Disk, IsDisk, FileError, insecure_mode, strict_mode, check_mode, save,
}
use mesh_checker.Config.Files.Atomic.{Saved, save-Saved}

pub data StrictError : Type 0 where
  not_saved : FileError → StrictError
  not_chmod : Text → StrictError

abbrev chmod_error : Option Text → Option StrictError
chmod_error none = none
chmod_error (some e) = some (not_chmod e)

-- `os.Chmod` on a disk, and what it promises: the contents stay, and a later look at the file finds
-- the new mode.
pub record IsChmod (d : Disk) (chmod : d.State → Text → ℕ → d.State × Option Text) : Type 0 where
  pub same_content :
      (s : d.State) (path : Text) (perm : ℕ)
      → d.content (chmod s path perm).0 path ≡ d.content s path
  pub new_mode :
      (s : d.State) (path : Text) (perm found : ℕ)
      → (chmod s path perm).1 ≡ none
      → d.stat_mode (chmod s path perm).0 path ≡ ok found
      → found ≡ perm

module _ (d : Disk) (json : Json) (chmod : d.State → Text → ℕ → d.State × Option Text) where
  -- The mode of the saved file.
  set_mode : Text → d.State × Option FileError → d.State × Option StrictError
  set_mode path (s, some e) = (s, some (not_saved e))
  set_mode path (s, none) =
      let changed = chmod s path strict_mode in (changed.0, chmod_error changed.1)

  unfoldable pub save_strict : d.State → Text → Config → d.State × Option StrictError
  unfolding set_mode
  save_strict s path c = set_mode path (save d json s path c)

module _ (d : Disk) (json : Json) (chmod : d.State → Text → ℕ → d.State × Option Text)
    (good : IsDisk d) (law : IsChmod d chmod) where
  -- What a successful `saveStrict` leaves at the path: the configuration, in a file whose mode is
  -- accepted, if the file can be looked at.
  pub record Strict (s : d.State) (path : Text) (c : Config) : Type 0 where
    pub bytes : Text
    pub encoded : json.marshal c ≡ ok bytes
    pub held : d.content s path ≡ some bytes
    pub not_insecure : (perm : ℕ) → check_mode d s path ≢ some (insecure_mode perm)

  accepted :
      (s : d.State) (path : Text)
      → (chmod s path strict_mode).1 ≡ none
      → (perm : ℕ) → check_mode d (chmod s path strict_mode).0 path ≢ some (insecure_mode perm)
  unfolding check_mode nat_eq
  accepted s path done perm e =
      elim (Fallible-cases (d.stat_mode (chmod s path strict_mode).0 path)) [
        | inl (x, p) ↦ ground (arith, p, e)
        | inr (found, p) ↦ ground (arith, p, e, law.new_mode s path strict_mode found done p)
      ]

  set_mode-Strict :
      (path : Text) (before : d.State) (c : Config) (r : d.State × Option FileError)
      → Saved d json good path before c r
      → (set_mode d json chmod path r).1 ≡ none
      → Strict (set_mode d json chmod path r).0 path c
  unfolding set_mode
  set_mode-Strict path before c (s, some e) kept h = absurd (ground (arith, h))
  set_mode-Strict path before c (s, none) (b, m, held) h = record {
    bytes = b;
    encoded = m;
    held = law.same_content s path strict_mode ∙ held;
    not_insecure = accepted s path (ground (arith, h));
  }

  -- A `saveStrict` that reports no error leaves the configuration at the path, in a file that
  -- `CheckMode` does not find insecure.
  pub save_strict-Strict :
      (s : d.State) (path : Text) (c : Config)
      → (save_strict d json chmod s path c).1 ≡ none
      → Strict (save_strict d json chmod s path c).0 path c
  unfolding save_strict
  save_strict-Strict s path c h =
      set_mode-Strict path s c (save d json s path c) (save-Saved d json good path s c) h
