-- ===== src/Cli/Program/Ends.antt =====
-- The subcommands that there are, and the exit status.
use mesh_checker.Base.{
  ◌≡◌, ◌↔◌, refl, sym, ap, ◌∙◌, Option-cases, inl, inr, none, some, List, [], ◌∷◌, Text, text_eq,
  nat_eq, arith, take, drop,
}
use mathlib.Core.List.{cons-ne-nil}
use mesh_checker.Base.Dict
use mesh_checker.Cli.Dispatch.{Subcommand, Table, register_all, run, calls}
use mesh_checker.Cli.Dispatch.Table.{run-register_all, entries-register_all}
use mesh_checker.Cli.Program.{
  Handler, run_config, run_host, run_pki, run_serve, run_status, run_user, inits, name_of,
  registration, Ran, Exit, ran, finish, main,
}

-- Each name of the table is that of its handler.
named :
    (table : Table Handler) (name : Text) (sc : Subcommand Handler)
    → register_all [] inits ≡ some table
    → Dict.lookup name table ≡ some sc
    → name ≡ name_of sc.run
unfolding Dict.lookup
named table name sc h found =
    entries-register_all (λ n s. n ≡ name_of s.run) [] table inits name sc
      (λ i s e. absurd (ground (arith, e))) (refl, (refl, (refl, (refl, (refl, (refl, tt)))))) h
      found

-- Each handler is called by its name.
module _ (table : Table Handler) (all : register_all [] inits ≡ some table) where
  runs : (h : Handler) (args : List Text) → run table (name_of h ∷ args) ≡ calls h args
  runs run_config args =
      run-register_all table [] (take 0 inits) (drop 1 inits) (name_of run_config)
        (registration run_config).1 args all
  runs run_host args =
      run-register_all table [] (take 1 inits) (drop 2 inits) (name_of run_host)
        (registration run_host).1 args all
  runs run_pki args =
      run-register_all table [] (take 2 inits) (drop 3 inits) (name_of run_pki)
        (registration run_pki).1 args all
  runs run_serve args =
      run-register_all table [] (take 3 inits) (drop 4 inits) (name_of run_serve)
        (registration run_serve).1 args all
  runs run_status args =
      run-register_all table [] (take 4 inits) (drop 5 inits) (name_of run_status)
        (registration run_status).1 args all
  runs run_user args =
      run-register_all table [] (take 5 inits) (drop 6 inits) (name_of run_user)
        (registration run_user).1 args all

module _ (quote : Text → Text) where
  finish-status : (r : Ran) → ((finish quote r).status ≡ 0) ↔ (r.error ≡ none)
  unfolding finish
  finish-status r = elim (Option-cases r.error) [
    | inl p ↦ (λ z. p, λ e. rw (finish, p) refl)
    | inr (e, p) ↦ (λ z. absurd (ground (arith, p, z)), λ n. absurd (ground (arith, p, n)))
  ]

module _ (quote : Text → Text) (handle : Handler → List Text → Ran) where
  main-named :
      (table : Table Handler) (h : Handler) (args : List Text)
      → register_all [] inits ≡ some table
      → main quote handle table (name_of h ∷ args) ≡ finish quote (handle h args)
  unfolding main ran
  main-named table h args all = rw (main, ran, runs table all h args) refl

  -- The process, whose table is that of its subcommands, ends with the status 0 exactly when its
  -- first argument is the name of a subcommand which, for the other arguments, returns no error.
  pub main-status :
      (table : Table Handler) (args : List Text)
      → register_all [] inits ≡ some table
      → ((main quote handle table args).status ≡ 0) ↔ (
          (h : Handler) × (rest : List Text) × (args ≡ name_of h ∷ rest)
          × ((handle h rest).error ≡ none))
  unfolding main ran run finish
  main-status table [] all = (
    λ z. absurd (ground (arith, z)),
    λ (h, rest, e, _). absurd (cons-ne-nil (name_of h) rest (sym e)),
  )
  main-status table (name ∷ rest) all = (
    λ z. elim (Option-cases (Dict.lookup name table)) [
      | inl p ↦ absurd (ground (arith, p, z))
      | inr (sc, p) ↦ (
        sc.run,
        rest,
        ap (λ n. n ∷ rest) (named table name sc all p),
        (finish-status quote (handle sc.run rest)).0 (ground (arith, p, z)),
      )
    ],
    λ (h, other, e, quiet).
        ap (λ l. (main quote handle table l).status) e
        ∙ ap (λ (r : Exit). r.status) (main-named table h other all)
        ∙ (finish-status quote (handle h other)).1 quiet,
  )
