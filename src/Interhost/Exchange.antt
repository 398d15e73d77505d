-- ===== src/Interhost/Exchange.antt =====
-- One node asks another for its view.
use mesh_checker.Base.{
  ◌≡◌, refl, ◌∙◌, Bool, true, false, ◌||◌, some, List, [], ◌∷◌, ◌++◌, Text, text_eq, nat_eq, ◌==◌,
  if◌then◌else◌, Fallible, ok, err, arith,
}
use mesh_checker.Base.Dict
use mesh_checker.Base.Dict.{Dict, contains}
use mesh_checker.Config.{Config, Peer}
use mesh_checker.Config.Validate.Laws.{names}
use mesh_checker.Serve.{add_names, peer_names}
use mesh_checker.Aggregator.{ObserverView}
use mesh_checker.Interhost.{
  Chain, Response, is_allowed, peer_cn_check, ViewCodec, status_path, new_mux, bad_status, fetch,
}

is_allowed-insert :
    (name cn : Text) (allowed : Dict Text Bool)
    → is_allowed (Dict.insert name true allowed) cn ≡ (cn == name || is_allowed allowed cn)
unfolding is_allowed
is_allowed-insert name cn allowed = ground (arith, Dict.lookup-insert cn name true allowed)

is_allowed-nil : (cn : Text) → is_allowed [] cn ≡ false
unfolding is_allowed Dict.lookup
is_allowed-nil cn = refl

is_allowed-add_names :
    (allowed : Dict Text Bool) (peers : List Peer) (cn : Text)
    → is_allowed (add_names allowed peers) cn ≡ (contains cn (names peers) || is_allowed allowed cn)
unfolding add_names
is_allowed-add_names allowed [] cn = refl
is_allowed-add_names allowed (p ∷ peers) cn =
    is_allowed-add_names (Dict.insert p.name true allowed) peers cn
    ∙ ground (arith, is_allowed-insert p.name cn allowed)

-- The common names that may ask a node: its own, and those of its peers.
pub is_allowed-peer_names :
    (c : Config) (cn : Text)
    → is_allowed (peer_names c) cn ≡ (cn == c.host.name || contains cn (names c.peers))
unfolding peer_names
is_allowed-peer_names c cn =
    is_allowed-add_names (Dict.insert c.host.name true []) c.peers cn
    ∙ ground (arith, is_allowed-insert c.host.name cn [], is_allowed-nil cn)

module _ (codec : ViewCodec) where
  -- A request over TLS that reaches a server with these allowed names is answered with the view, or
  -- with the status 403.
  pub fetch-is_allowed :
      (urls : Dict Text Text) (send : Text → Fallible Text Response) (peer base cn version : Text)
      (more : List Chain) (allowed : Dict Text Bool) (accepts : Bool) (local : ObserverView)
      → Dict.lookup peer urls ≡ some base
      → send (base ++ status_path)
        ≡ ok (
            new_mux codec allowed local version
              (record { path = status_path; tls = some (record { common_name = cn } ∷ more) }))
      → is_allowed allowed cn ≡ accepts
      → fetch codec urls send peer ≡ (if accepts then ok local else err (bad_status peer 403))
  unfolding fetch new_mux peer_cn_check
  fetch-is_allowed urls send peer base cn version more allowed true local url answered e =
      rw (fetch, url, answered, e, codec.decode-encode local) refl
  fetch-is_allowed urls send peer base cn version more allowed false local url answered e =
      rw (fetch, url, answered, e) refl

  -- A request for a configured peer's view that reaches that peer's server, over TLS with a verified
  -- chain, gives that view when the asking node's common name is the peer's own or that of one of
  -- its peers, and the error of the status 403 otherwise.
  pub fetch-new_mux :
      (urls : Dict Text Text) (send : Text → Fallible Text Response) (peer base cn version : Text)
      (more : List Chain) (c : Config) (local : ObserverView)
      → Dict.lookup peer urls ≡ some base
      → send (base ++ status_path)
        ≡ ok (
            new_mux codec
              (peer_names c)
              local
              version
              (record { path = status_path; tls = some (record { common_name = cn } ∷ more) }))
      → fetch codec urls send peer ≡ (
          if cn == c.host.name || contains cn (names c.peers)
          then ok local
          else err (bad_status peer 403))
  fetch-new_mux urls send peer base cn version more c local url answered =
      fetch-is_allowed urls send peer base cn version more (peer_names c)
        (cn == c.host.name || contains cn (names c.peers)) local url answered
        (is_allowed-peer_names c cn)
