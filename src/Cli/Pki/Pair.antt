-- ===== src/Cli/Pki/Pair.antt =====
-- What stands in two files that were written one after the other, with their modes.
use mesh_checker.Base.{ℕ, ◌≡◌, ◌≢◌, refl, subst, ◌∙◌, Option, none, some, Text}
use mesh_checker.Cli.Files.{Files, IsFiles}
use mesh_checker.Cli.Pki.{
  set_mode, written, then_key, cert_mode, key_mode, write_strict, write_pair,
}

module _ (d : Files) where
  -- A file with its content and its mode.
  pub record Holds (s : d.State) (path b : Text) (perm : ℕ) : Type 0 where
    pub content : d.content s path ≡ some b
    pub mode : d.mode s path ≡ some perm

  set_mode-Holds :
      IsFiles d
      → (path b : Text) (perm : ℕ) (r : d.State × Option Text)
      → (r.1 ≡ none → d.content r.0 path ≡ some b)
      → (set_mode d path perm r).1 ≡ none
      → Holds (set_mode d path perm r).0 path b perm
  set_mode-Holds is path b perm (s, none) w h = record {
    content = is.chmod_content s path path perm ∙ w refl;
    mode = is.chmod_done s path perm h;
  }
  set_mode-Holds is path b perm (s, some e) w h = cc

  write_strict-Holds :
      IsFiles d
      → (s : d.State) (path b : Text) (perm : ℕ) → (write_strict d s path b perm).1 ≡ none
      → Holds (write_strict d s path b perm).0 path b perm
  unfolding write_strict
  write_strict-Holds is s path b perm h =
      set_mode-Holds is path b perm (d.write_file s path b perm) (is.write_done s path b perm) h

  set_mode-other :
      IsFiles d
      → (path other b : Text) (perm kept : ℕ) (r : d.State × Option Text) → other ≢ path
      → Holds r.0 other b kept
      → Holds (set_mode d path perm r).0 other b kept
  set_mode-other is path other b perm kept (s, none) apart h = record {
    content = is.chmod_content s path other perm ∙ h.content;
    mode = is.chmod_other s path other perm apart ∙ h.mode;
  }
  set_mode-other is path other b perm kept (s, some e) apart h = h

  write_strict-other :
      IsFiles d
      → (s : d.State) (path b : Text) (perm : ℕ) (other held : Text) (kept : ℕ) → other ≢ path
      → Holds s other held kept
      → Holds (write_strict d s path b perm).0 other held kept
  unfolding write_strict
  write_strict-other is s path b perm other held kept apart h =
      set_mode-other is path other held perm kept (d.write_file s path b perm) apart (record {
        content = is.write_other s path b other perm apart ∙ h.content;
        mode = is.write_other_mode s path b other perm apart ∙ h.mode;
      })

  -- Both files after a command.
  pub record HoldsPair (s : d.State) (cert_path key_path : Text) (pems : Text × Text) : Type 0 where
    pub cert : Holds s cert_path pems.0 cert_mode
    pub key : Holds s key_path pems.1 key_mode

  written-none :
      (r : d.State × Option Text) → (written d r).1 ≡ none → (r.1 ≡ none) × (r.0 ≡ (written d r).0)
  written-none (s, none) h = (refl, refl)
  written-none (s, some e) h = cc

  then_key-HoldsPair :
      IsFiles d
      → (cert_path key_path : Text) (pems : Text × Text) (r : d.State × Option Text)
      → cert_path ≢ key_path
      → (r.1 ≡ none → Holds r.0 cert_path pems.0 cert_mode)
      → (then_key d key_path pems.1 r).1 ≡ none
      → HoldsPair (then_key d key_path pems.1 r).0 cert_path key_path pems
  then_key-HoldsPair is cert_path key_path pems (s, none) apart w h =
      let (done, same) = written-none (write_strict d s key_path pems.1 key_mode) h in
      subst (λ t. HoldsPair t cert_path key_path pems) same
        (record {
          cert =
              write_strict-other is s key_path pems.1 key_mode cert_path pems.0 cert_mode apart
                (w refl);
          key = write_strict-Holds is s key_path pems.1 key_mode done;
        })
  then_key-HoldsPair is cert_path key_path pems (s, some e) apart w h = cc

  pub write_pair-HoldsPair :
      IsFiles d
      → (s : d.State) (cert_path key_path : Text) (pems : Text × Text) → cert_path ≢ key_path
      → (write_pair d s cert_path key_path pems).1 ≡ none
      → HoldsPair (write_pair d s cert_path key_path pems).0 cert_path key_path pems
  unfolding write_pair
  write_pair-HoldsPair is s cert_path key_path pems apart h =
      then_key-HoldsPair is cert_path key_path pems (write_strict d s cert_path pems.0 cert_mode)
        apart (write_strict-Holds is s cert_path pems.0 cert_mode) h
