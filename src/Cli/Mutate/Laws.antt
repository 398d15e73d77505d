-- ===== src/Cli/Mutate/Laws.antt =====
-- An edit of the configuration file happens as a whole or not at all.
use mesh_checker.Base.{
  ◌≡◌, refl, inl, inr, Option, none, some, List, [], ◌∷◌, Text, ok, Fallible-cases,
}
use mesh_checker.Config.{Config}
use mesh_checker.Config.Files.{Json, Disk, IsDisk, FileError, load, save}
use mesh_checker.Config.Files.Atomic.{Saved, save-Saved}
use mesh_checker.Cli.Mutate.{Outcome, Edit, save_error, load_and_mutate}

module _ (d : Disk) (json : Json) (good : IsDisk d) where
  -- The file that was loaded from `s` now holds the edited configuration.
  pub record Edited (s s' : d.State) (path : Text) (edit : Edit) (out : List Text) : Type 0 where
    pub old : Config
    pub new : Config
    pub line : Text
    pub bytes : Text
    pub loaded : load d json s path ≡ ok old
    pub edited : edit old ≡ ok (new, line)
    pub encoded : json.marshal new ≡ ok bytes
    pub held : d.content s' path ≡ some bytes
    pub printed : out ≡ line ∷ []

  -- What a command has made of the file at the path.
  abbrev pub AllOrNothing : d.State → Text → Edit → Outcome d.State → Type 0
  AllOrNothing s path edit o = elim o.error [
    | none ↦ Edited s o.files path edit o.out
    | some e ↦ d.content o.files path ≡ d.content s path
  ]

  save_error-AllOrNothing :
      (s : d.State) (path : Text) (edit : Edit) (old new : Config) (line : Text)
      (saved : d.State × Option FileError)
      → load d json s path ≡ ok old
      → edit old ≡ ok (new, line)
      → Saved d json good path s new saved
      → AllOrNothing s path edit
          (record { files = saved.0; out = line ∷ []; error = save_error saved.1 })
  save_error-AllOrNothing s path edit old new line (s', none) l e (b, m, h) = record {
    old = old;
    new = new;
    line = line;
    bytes = b;
    loaded = l;
    edited = e;
    encoded = m;
    held = h;
    printed = refl;
  }
  save_error-AllOrNothing s path edit old new line (s', some x) l e h = h

  -- On a disk that keeps what its calls promise, a command that edits the configuration and reports
  -- no error leaves the edited configuration, marshalled, at its path; one that reports an error
  -- leaves there what was there before.
  pub load_and_mutate-AllOrNothing :
      (s : d.State) (path : Text) (edit : Edit)
      → AllOrNothing s path edit (load_and_mutate d json s path edit)
  unfolding load_and_mutate
  load_and_mutate-AllOrNothing s path edit = elim (Fallible-cases (load d json s path)) [
    | inl (e, q) ↦ rw (load_and_mutate, q) refl
    | inr (c, q) ↦ elim (Fallible-cases (edit c)) [
      | inl (e, p) ↦ rw (load_and_mutate, q, p) refl
      | inr (r, p) ↦
          rw (load_and_mutate, q, p)
            (save_error-AllOrNothing s path edit c r.0 r.1 (save d json s path r.0) q p
              (save-Saved d json good path s r.0))
    ]
  ]
