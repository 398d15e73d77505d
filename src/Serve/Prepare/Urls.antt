-- ===== src/Serve/Prepare/Urls.antt =====
-- The URLs by which a node asks the others.
use mesh_checker.Base.{
  ◌≡◌, refl, ap, ◌∙◌, true, false, none, some, Option, List, ◌==◌, if◌then◌else◌, if_pos, if_neg,
  sym, [], ◌∷◌, ◌++◌, Text, text_eq, codes, arith,
}
use mesh_checker.Base.Dict
use mesh_checker.Base.Dict.{Dict, contains, Distinct}
use mesh_checker.Config.{Config, Peer}
use mesh_checker.Config.Validate.Laws.{names}
use mesh_checker.Serve.Prepare.{add_urls, peer_urls}

-- The first peer of the name.
abbrev pub find : Text → List Peer → Option Peer
find n [] = none
find n (q ∷ peers) = if n == q.name then some q else find n peers

find-none : (n : Text) (peers : List Peer) → contains n (names peers) ≡ false → find n peers ≡ none
find-none n [] h = refl
find-none n (q ∷ peers) h = ground (arith, h, find-none n peers)

contains-middle :
    (front back : List Peer) (q : Peer) → contains q.name (names (front ++ (q ∷ back))) ≡ true
contains-middle [] back q = ground arith
contains-middle (r ∷ front) back q = ground (arith, contains-middle front back q)

pub find-middle :
    (front back : List Peer) (q : Peer)
    → Distinct (names (front ++ (q ∷ back)))
    → find q.name (front ++ (q ∷ back)) ≡ some q
find-middle [] back q (fresh, _) = ground arith
find-middle (r ∷ front) back q (fresh, rest) = elim (text_eq.dec q.name r.name) [
  | no ne ↦ rw (if_neg _ ne) (find-middle front back q rest)
  | yes e ↦
      let found : contains r.name (names (front ++ (q ∷ back))) ≡ true =
        ap (λ n. contains n (names (front ++ (q ∷ back)))) (sym e) ∙ contains-middle front back q in
      absurd (ground (arith, found, fresh))
]

module _ (join : Text → Text → Text) (port : Text) where
  abbrev pub url_of : Peer → Text
  url_of q = codes "https://" ++ join q.addr port

  abbrev pub or_url : Option Peer → Option Text → Option Text
  or_url none own = own
  or_url (some q) own = some (url_of q)

  -- The URL of a name: that of the peer of that name, or else the node's own for its own name.
  abbrev pub url_by_name : Config → Text → Option Text
  url_by_name c n = or_url (find n c.peers) (
      if n == c.host.name then some (codes "https://" ++ join c.host.advertise_addr port) else none)

  lookup-add_urls :
      (urls : Dict Text Text) (peers : List Peer) (n : Text)
      → Distinct (names peers)
      → Dict.lookup n (add_urls join port urls peers) ≡ or_url (find n peers) (Dict.lookup n urls)
  unfolding add_urls
  lookup-add_urls urls [] n d = refl
  lookup-add_urls urls (q ∷ peers) n (fresh, rest) =
      lookup-add_urls (Dict.insert q.name (url_of q) urls) peers n rest ∙ first
    where
      first :
          or_url (find n peers) (Dict.lookup n (Dict.insert q.name (url_of q) urls))
          ≡ or_url (find n (q ∷ peers)) (Dict.lookup n urls)
      first = elim (text_eq.dec n q.name) [
        | yes e ↦
            rw
              (
                Dict.lookup-insert n q.name (url_of q) urls,
                if_pos _ e,
                find-none n peers (ap (λ m. contains m (names peers)) e ∙ fresh),
              )
              refl
        | no ne ↦ rw (Dict.lookup-insert n q.name (url_of q) urls, if_neg _ ne) refl
      ]

  -- What `peerURLs` holds, if no two peers have one name.
  pub peer_urls-url_by_name :
      (c : Config) (n : Text)
      → Distinct (names c.peers)
      → Dict.lookup n (peer_urls join port c) ≡ url_by_name c n
  unfolding peer_urls Dict.lookup
  peer_urls-url_by_name c n d =
      let own = codes "https://" ++ join c.host.advertise_addr port in
      lookup-add_urls (Dict.insert c.host.name own []) c.peers n d
      ∙ ap (or_url (find n c.peers)) (Dict.lookup-insert n c.host.name own [])
