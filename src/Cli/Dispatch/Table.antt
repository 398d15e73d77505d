-- ===== src/Cli/Dispatch/Table.antt =====
-- Which handler a name leads to, and what the usage lists.
use mesh_checker.Base.{
  ◌≡◌, refl, sym, ap, ◌∙◌, true, false, none, some, List, All, subst, [], ◌∷◌, ◌++◌, Text, text_eq,
  ◌==◌, if◌then◌else◌, arith, Option-cases, inl, inr, ◌||◌,
}
use mesh_checker.Base.Dict
use mesh_checker.Base.Dict.{Dict, contains, Distinct}
use mesh_checker.Cli.Dispatch.{
  Subcommand, Table, register, register_all, calls, leb_text, insert_sorted, sort, run,
}

module _ {Handler : Type 0} where
  abbrev pub registered : List (Text × Subcommand Handler) → List Text
  registered [] = []
  registered ((n, sc) ∷ more) = n ∷ registered more

  -- No name stands in the table already.
  abbrev AllFree : Table Handler → List (Text × Subcommand Handler) → Type 0
  AllFree table [] = Unit
  AllFree table ((n, sc) ∷ more) = (Dict.lookup n table ≡ none) × AllFree table more

  register-lookup :
      (table next : Table Handler) (name j : Text) (sc : Subcommand Handler)
      → register table name sc ≡ some next
      → (Dict.lookup name table ≡ none)
        × (Dict.lookup j next ≡ (if j == name then some sc else Dict.lookup j table))
  unfolding register
  register-lookup table next name j sc h = elim (Option-cases (Dict.lookup name table)) [
    | inr (old, p) ↦ absurd (ground (arith, p))
    | inl p ↦ (
      p,
      ap (Dict.lookup j)
            (sym (Dict.some_injective (Dict.insert name sc table) next (rw (register, p) at h)))
          ∙ Dict.lookup-insert j name sc table,
    )
  ]

  -- The entry of a name that is registered later stands in the table at the end.
  kept :
      (table final : Table Handler) (more : List (Text × Subcommand Handler)) (j : Text)
      (sc : Subcommand Handler)
      → register_all table more ≡ some final
      → Dict.lookup j table ≡ some sc
      → Dict.lookup j final ≡ some sc
  unfolding register_all
  kept table final [] j sc h here =
      ap (Dict.lookup j) (sym (Dict.some_injective table final h)) ∙ here
  kept table final ((n, other) ∷ more) j sc h here = elim (Option-cases (register table n other)) [
    | inl p ↦ absurd (ground (arith, p))
    | inr (next, p) ↦
        let (free, found) = register-lookup table next n j other p in
        kept next final more j sc (rw (register_all, p) at h) (ground (arith, free, found, here))
  ]

  -- After all subcommands are registered, a name that is among them leads to its handler, with the
  -- arguments behind the name.
  pub run-register_all :
      (final table : Table Handler) (front back : List (Text × Subcommand Handler)) (name : Text)
      (sc : Subcommand Handler) (args : List Text)
      → register_all table (front ++ ((name, sc) ∷ back)) ≡ some final
      → run final (name ∷ args) ≡ calls sc.run args
  unfolding register_all run
  run-register_all final table [] back name sc args h =
      elim (Option-cases (register table name sc)) [
        | inl p ↦ absurd (ground (arith, p))
        | inr (next, p) ↦
            let (_, found) = register-lookup table next name name sc p in
            let here : Dict.lookup name next ≡ some sc = ground (arith, found) in
            rw (run, kept next final back name sc (rw (register_all, p) at h) here) refl
      ]
  run-register_all final table ((n, other) ∷ front) back name sc args h =
      elim (Option-cases (register table n other)) [
        | inl p ↦ absurd (ground (arith, p))
        | inr (next, p) ↦
            run-register_all final next front back name sc args (rw (register_all, p) at h)
      ]

  -- What holds of each registered subcommand and its name holds of each entry of the table.
  pub entries-register_all :
      (P : Text → Subcommand Handler → Type 0) (table final : Table Handler)
      (more : List (Text × Subcommand Handler)) (j : Text) (sc : Subcommand Handler)
      → ((i : Text) (s : Subcommand Handler) → Dict.lookup i table ≡ some s → P i s)
      → All (λ e. P e.0 e.1) more
      → register_all table more ≡ some final
      → Dict.lookup j final ≡ some sc
      → P j sc
  unfolding register_all
  entries-register_all P table final [] j sc old new h found =
      old j sc (ap (Dict.lookup j) (Dict.some_injective table final h) ∙ found)
  entries-register_all P table final ((n, other) ∷ more) j sc old (p, new) h found =
      elim (Option-cases (register table n other)) [
        | inl q ↦ absurd (ground (arith, q))
        | inr (next, q) ↦
            entries-register_all P next final more j sc
              (λ i s here.
                elim (Dict.inserted i n other s table (
                  Dict.lookup-insert i n other table
                  ∙ sym (register-lookup table next n i other q).1
                  ∙ here)) [
                    | inl (same, v) ↦ subst (λ k. P k s) (sym same) (subst (P n) v p)
                    | inr (_, before) ↦ old i s before
                  ])
              new (rw (register_all, q) at h) found
      ]

leb_text_total : (a b : Text) → leb_text a b ≡ false → leb_text b a ≡ true
unfolding leb_text
leb_text_total [] b h = cc
leb_text_total (x ∷ a) [] h = refl
leb_text_total (x ∷ a) (y ∷ b) h = ground (arith, leb_text_total a b)

-- No element is above the next.
abbrev pub IsSorted : List Text → Type 0
IsSorted [] = Unit
IsSorted (a ∷ []) = Unit
IsSorted (a ∷ b ∷ l) = (leb_text a b ≡ true) × IsSorted (b ∷ l)

insert_sorted-IsSorted : (a : Text) (l : List Text) → IsSorted l → IsSorted (insert_sorted a l)
unfolding insert_sorted
insert_sorted-IsSorted a [] s = tt
insert_sorted-IsSorted a (b ∷ []) s = ground (arith, leb_text_total a b)
insert_sorted-IsSorted a (b ∷ c ∷ l) (p, s) =
    ground (arith, p, s, leb_text_total a b, insert_sorted-IsSorted a (c ∷ l) s)

contains-insert_sorted :
    (j a : Text) (l : List Text) → contains j (insert_sorted a l) ≡ (j == a || contains j l)
unfolding insert_sorted
contains-insert_sorted j a [] = refl
contains-insert_sorted j a (b ∷ l) = ground (arith, contains-insert_sorted j a l)

sort-IsSorted : (l : List Text) → IsSorted (sort l)
unfolding sort
sort-IsSorted [] = tt
sort-IsSorted (a ∷ l) = insert_sorted-IsSorted a (sort l) (sort-IsSorted l)

contains-sort : (j : Text) (l : List Text) → contains j (sort l) ≡ contains j l
unfolding sort
contains-sort j [] = refl
contains-sort j (a ∷ l) =
    contains-insert_sorted j a (sort l) ∙ ap (λ b. j == a || b) (contains-sort j l)

-- The usage lists the names of the table, and no others, in ascending order.
pub sort-keys :
    {Handler : Type 0} (table : Table Handler) (j : Text)
    → IsSorted (sort (Dict.keys table))
      × (contains j (sort (Dict.keys table)) ≡ contains j (Dict.keys table))
sort-keys table j = (sort-IsSorted (Dict.keys table), contains-sort j (Dict.keys table))
