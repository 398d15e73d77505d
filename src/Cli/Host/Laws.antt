-- ===== src/Cli/Host/Laws.antt =====
-- What the host commands do to the peers of a configuration.
use mesh_checker.Base.{
  ◌≡◌, refl, subst, sym, ap, ◌∙◌, true, false, ◌||◌, Option, none, some, List, [], ◌∷◌, ◌++◌, Text,
  text_eq, ◌==◌, ok, arith, Option-cases, inl, inr,
}
use mesh_checker.Base.Dict.{contains, Distinct}
use mesh_checker.Config.{Config, Peer}
use mesh_checker.Config.Validate.{validate}
use mesh_checker.Config.Validate.Laws.{IsSound, names, validate-IsSound}
use mesh_checker.Config.Files.{Json, Disk}
use mesh_checker.Cli.Flags.{is_plain}
use mesh_checker.Cli.Flags.Laws.{flag_args, AllKnown}
use mesh_checker.Cli.Args.{config_flag}
use mesh_checker.Cli.Args.Laws.{pair_args-order}
use mesh_checker.Cli.Named.{exists, cut_out, cut_out-append, cut_out-Cut}
use mesh_checker.Cli.Host.{
  with_peers, peer_name, added_line, removed_line, add_peer, remove_peer, check_flag, run_host_add,
}

-- A peer of a name that the configuration does not have can be added; removing that name from the
-- result gives the configuration back.
pub add_peer-remove_peer :
    (p : Peer) (c : Config)
    → exists peer_name p.name c.peers ≡ false
    → (add_peer p c ≡ ok (with_peers c (c.peers ++ (p ∷ [])), added_line p))
      × (remove_peer p.name (with_peers c (c.peers ++ (p ∷ []))) ≡ ok (c, removed_line p.name))
unfolding add_peer remove_peer
add_peer-remove_peer p c h =
    (rw (add_peer, h) refl, rw (remove_peer, cut_out-append peer_name p c.peers h) refl)

-- The edited configuration and its line, in the form of `add_peer`.
add_peer-parts :
    (p : Peer) (c c' : Config) (line : Text)
    → add_peer p c ≡ ok (c', line)
    → (exists peer_name p.name c.peers ≡ false) × (c' ≡ with_peers c (c.peers ++ (p ∷ [])))
unfolding add_peer
add_peer-parts p c c' line h = ground arith

contains-names :
    (name : Text) (peers : List Peer) → contains name (names peers) ≡ exists peer_name name peers
unfolding exists
contains-names name [] = refl
contains-names name (p ∷ peers) = ground (arith, contains-names name peers)

contains-append :
    (name : Text) (peers : List Peer) (p : Peer)
    → contains name (names (peers ++ (p ∷ []))) ≡ (contains name (names peers) || name == p.name)
contains-append name [] p = ground arith
contains-append name (q ∷ peers) p = ground (arith, contains-append name peers p)

Distinct-append :
    (peers : List Peer) (p : Peer)
    → Distinct (names peers)
    → contains p.name (names peers) ≡ false
    → Distinct (names (peers ++ (p ∷ [])))
Distinct-append [] p u h = (refl, tt)
Distinct-append (q ∷ peers) p u h =
    ground (arith, contains-append q.name peers p, Distinct-append peers p)

contains-cut :
    (name : Text) (front back : List Peer) (p : Peer)
    → contains name (names (front ++ (p ∷ back)))
      ≡ (name == p.name || contains name (names (front ++ back)))
contains-cut name [] back p = refl
contains-cut name (q ∷ front) back p = ground (arith, contains-cut name front back p)

Distinct-cut :
    (front back : List Peer) (p : Peer)
    → Distinct (names (front ++ (p ∷ back)))
    → (contains p.name (names (front ++ back)) ≡ false) × Distinct (names (front ++ back))
Distinct-cut [] back p u = u
Distinct-cut (q ∷ front) back p u =
    ground (arith, contains-cut q.name front back p, Distinct-cut front back p u.1)

remove_peer-parts :
    (name : Text) (c c' : Config) (line : Text)
    → remove_peer name c ≡ ok (c', line)
    → (peers : List Peer) × (cut_out peer_name name c.peers ≡ some peers)
      × (c' ≡ with_peers c peers)
unfolding remove_peer
remove_peer-parts name c c' line h = elim (Option-cases (cut_out peer_name name c.peers)) [
  | inl q ↦ absurd (ground (arith, q))
  | inr (peers, q) ↦ (peers, q, ground (arith, q))
]

module _ (decode : Text → Option Text) where
  with_peers-IsSound :
      (c : Config) (peers : List Peer)
      → IsSound decode c
      → Distinct (names peers)
      → IsSound decode (with_peers c peers)
  with_peers-IsSound c peers r u = record {
    versioned = r.versioned;
    named = r.named;
    threshold = r.threshold;
    udp_key = r.udp_key;
    session_key = r.session_key;
    distinct = u;
  }

  -- `host add` on a configuration that passes validation gives one that does.
  pub add_peer-IsSound :
      (p : Peer) (c c' : Config) (line : Text)
      → validate decode c ≡ none
      → add_peer p c ≡ ok (c', line)
      → validate decode c' ≡ none
  add_peer-IsSound p c c' line v h =
      let r = (validate-IsSound decode c).0 v in
      let (fresh, e) = add_peer-parts p c c' line h in
      let u : Distinct (names (c.peers ++ (p ∷ []))) =
        Distinct-append c.peers p r.distinct (contains-names p.name c.peers ∙ fresh) in
      rw e (
        (validate-IsSound decode (with_peers c (c.peers ++ (p ∷ [])))).1
          (with_peers-IsSound c (c.peers ++ (p ∷ [])) r u))

  -- `host remove` on a configuration that passes validation gives one that does, without the name.
  pub remove_peer-IsSound :
      (name : Text) (c c' : Config) (line : Text)
      → validate decode c ≡ none
      → remove_peer name c ≡ ok (c', line)
      → (validate decode c' ≡ none) × (exists peer_name name c'.peers ≡ false)
  remove_peer-IsSound name c c' line v h =
      let r = (validate-IsSound decode c).0 v in
      let (peers, q, e) = remove_peer-parts name c c' line h in
      let k = cut_out-Cut peer_name name c.peers q in
      let rest = k.front ++ k.back in
      let (gone, u) =
        Distinct-cut k.front k.back k.entry
          (subst (λ ps. Distinct (names ps)) k.before r.distinct) in
      let e' : c' ≡ with_peers c rest = e ∙ ap (with_peers c) k.after in
      rw e' (
        (validate-IsSound decode (with_peers c rest)).1 (with_peers-IsSound c rest r u),
        sym (contains-names name rest) ∙ (ap (λ n. contains n (names rest)) (sym k.here) ∙ gone),
      )

-- `host add` with the name and the address before the flags does what it does with them behind the
-- flags: any flags that it knows, a name and an address that start with no dash.
pub run_host_add-order :
    (d : Disk) (json : Json) (table : List (List Text) → Text) (s : d.State) (name addr : Text)
    (flags : List (Text × Text))
    → AllKnown (config_flag ∷ check_flag ∷ []) flags
    → is_plain name ≡ true
    → is_plain addr ≡ true
    → run_host_add d json table s (name ∷ addr ∷ flag_args flags)
      ≡ run_host_add d json table s (flag_args flags ++ (name ∷ addr ∷ []))
unfolding run_host_add
run_host_add-order d json table s name addr flags k p q =
    let (front, behind) = pair_args-order (config_flag ∷ check_flag ∷ []) name addr flags k p q in
    rw (run_host_add, front, behind) refl
