-- ===== src/Config/Files/Atomic.antt =====
-- Saving is atomic: a reader of the path finds the old file or the whole new one.
use mathlib.Core.Option.{some-injective}
use mesh_checker.Base.{
  ◌≡◌, ◌≢◌, refl, ap, sym, ◌∙◌, inl, inr, ◌++◌, Option, none, some, Text, codes, ok, arith, length,
  length-append, Fallible-cases,
}
use mesh_checker.Config.{Config}
use mesh_checker.Config.Files.{
  Json, Disk, IsDisk, FileError, load, tmp_path, finish_save, move_tmp, save,
}

module _ (d : Disk) (json : Json) (good : IsDisk d) where
  path-ne-tmp_path : (path : Text) → path ≢ path ++ codes ".tmp"
  path-ne-tmp_path path e = absurd (omega (arith, ap length e, length-append path (codes ".tmp")))

  -- What a call of `Save` has made of the file at the path.
  abbrev pub Saved : Text → d.State → Config → d.State × Option FileError → Type 0
  Saved path s c (s', none) = (b : Text) × (json.marshal c ≡ ok b) × (d.content s' path ≡ some b)
  Saved path s c (s', some e) = d.content s' path ≡ d.content s path

  finish_save-Saved :
      (path b : Text) (s s' : d.State) (c : Config) (r : d.State × Option Text)
      → json.marshal c ≡ ok b
      → d.content s' path ≡ d.content s path
      → d.content s' (tmp_path d json path) ≡ some b
      → (r.1 ≡ none → d.content r.0 path ≡ d.content s' (tmp_path d json path))
      → ((e : Text) → r.1 ≡ some e → d.content r.0 path ≡ d.content s' path)
      → Saved path s c (finish_save d json path r)
  unfolding finish_save
  finish_save-Saved path b s s' c (s'', none) m same held moved kept = (b, m, moved refl ∙ held)
  finish_save-Saved path b s s' c (s'', some e) m same held moved kept =
      good.remove_other s'' (tmp_path d json path) path (path-ne-tmp_path path)
      ∙ (kept e refl ∙ same)

  move_tmp-Saved :
      (path b : Text) (s : d.State) (c : Config) (r : d.State × Option Text)
      → json.marshal c ≡ ok b
      → d.content r.0 path ≡ d.content s path
      → (r.1 ≡ none → d.content r.0 (tmp_path d json path) ≡ some b)
      → Saved path s c (move_tmp d json path r)
  unfolding move_tmp
  move_tmp-Saved path b s c (s', some e) m same held = same
  move_tmp-Saved path b s c (s', none) m same held =
      let tmp = tmp_path d json path in
      finish_save-Saved path b s s' c (d.rename s' tmp path) m same (held refl)
        (good.rename_done s' tmp path) (λ e. good.rename_failed s' tmp path)

  -- On a disk that keeps what its calls promise, a save that reports success has put the whole
  -- marshalled configuration at the path; one that reports an error has left there what was there
  -- before.
  pub save-Saved : (path : Text) (s : d.State) (c : Config) → Saved path s c (save d json s path c)
  unfolding save
  save-Saved path s c = elim (Fallible-cases (json.marshal c)) [
    | inl (e, q) ↦ rw (q, save) refl
    | inr (b, q) ↦
        let tmp = tmp_path d json path in
        rw (q, save)
          (move_tmp-Saved path b s c (d.write_file s tmp b) q
            (good.write_other s tmp b path (path-ne-tmp_path path)) (good.write_done s tmp b))
  ]

  Saved-done :
      (path : Text) (s : d.State) (c : Config) (r : d.State × Option FileError)
      → Saved path s c r
      → r.1 ≡ none
      → (b : Text) × (json.marshal c ≡ ok b) × (d.content r.0 path ≡ some b)
  Saved-done path s c (s', none) h e = h
  Saved-done path s c (s', some x) h e = cc

  load_read :
      (s : d.State) (path b : Text) (c : Config)
      → d.read_file s path ≡ ok b
      → json.unmarshal b ≡ ok c
      → load d json s path ≡ ok c
  unfolding load
  load_read s path b c read parsed = ground arith

  -- On a disk that keeps what its calls promise, after a save that reports success, a load that can
  -- read the file returns the configuration.
  pub load-save :
      (path : Text) (s : d.State) (c : Config) (b : Text)
      → (save d json s path c).1 ≡ none
      → d.read_file (save d json s path c).0 path ≡ ok b
      → load d json (save d json s path c).0 path ≡ ok c
  load-save path s c b done read =
      let (b', m, held) = Saved-done path s c (save d json s path c) (save-Saved path s c) done in
      let same : b' ≡ b =
        some-injective b' b (sym held ∙ good.read_content (save d json s path c).0 path read) in
      load_read (save d json s path c).0 path b c read (json.unmarshal-marshal c (rw same at m))
