-- ===== src/Serve/Prepare/Mesh.antt =====
-- Two nodes that have started: one asks the other for its view.
use mesh_checker.Base.{
  codes, none, ◌≡◌, sym, ap, ◌∙◌, some, List, ◌∷◌, ◌++◌, Text, text_eq, ◌==◌, ◌||◌, Fallible, ok,
  err, ok_injective, subst, if◌then◌else◌,
}
use mesh_checker.Base.Dict
use mesh_checker.Base.Dict.{Dict, contains, Distinct}
use mesh_checker.Config.{Peer}
use mesh_checker.Config.Files.{Json, Disk}
use mesh_checker.Config.Validate.Laws.{names}
use mesh_checker.Aggregator.{ObserverView}
use mesh_checker.Interhost.{Chain, Response, ViewCodec, status_path, new_mux, fetch, bad_status}
use mesh_checker.Interhost.Exchange.{fetch-is_allowed}
use mesh_checker.Serve.Prepare.{Platform, Plan, prepare}
use mesh_checker.Serve.Prepare.Urls.{url_of, or_url, find, find-middle}
use mesh_checker.Serve.Prepare.Ready.{prepare-IsReady}

module _ (d : Disk) (json : Json) (p : Platform d.State) (codec : ViewCodec) where
  -- Of two nodes that have started, one asks the other, a peer of its configuration, for its view.
  -- If the request for the URL of that peer, with the port of the asking node's own inter-host
  -- listener, reaches the other node's server over TLS, and the chain that is verified there begins
  -- with the asking node's certificate, the answer is the other node's view exactly when the other
  -- node has the asking node's name or has it among its peers, and the status 403 otherwise.
  pub fetch-prepare :
      (s t : d.State) (path_a path_b : Text) (a b : Plan d json p) (front back : List Peer)
      (q : Peer) (host port cn version : Text) (more : List Chain) (local : ObserverView)
      (send : Text → Fallible Text Response)
      → prepare d json p s path_a ≡ ok a
      → prepare d json p t path_b ≡ ok b
      → a.config.peers ≡ front ++ (q ∷ back)
      → p.split_host_port a.config.listeners.inter_host.addr ≡ ok (host, port)
      → p.leaf_common_name a.host_cert ≡ ok cn
      → send (url_of p.join_host_port port q ++ status_path)
        ≡ ok (
            new_mux codec b.allowed_names local version
              (record { path = status_path; tls = some (record { common_name = cn } ∷ more) }))
      → fetch codec a.urls send q.name ≡ (
          if a.config.host.name == b.config.host.name
            || contains a.config.host.name (names b.config.peers)
          then ok local
          else err (bad_status q.name 403))
  fetch-prepare s t path_a path_b a b front back q host port cn version more local send ready_a
        ready_b here split leaf sent =
      let ra = prepare-IsReady d json p s path_a ready_a in
      let rb = prepare-IsReady d json p t path_b ready_b in
      let join = p.join_host_port in
      let same_cn : a.config.host.name ≡ cn =
        ok_injective (a.config.host.name) cn (sym ra.own_name ∙ leaf) in
      let same_port : ra.port ≡ port =
        ap (λ (r : Text × Text). r.1)
          (ok_injective (ra.host_part, ra.port) (host, port) (sym ra.addr_split ∙ split)) in
      let url : Dict.lookup q.name a.urls ≡ some (url_of join port q) =
        ra.urls q.name
        ∙ ap
            (λ o. or_url join ra.port o (
              if q.name == a.config.host.name
              then some (codes "https://" ++ join a.config.host.advertise_addr ra.port)
              else none))
            (ap (find q.name) here
              ∙ find-middle front back q (subst (λ l. Distinct (names l)) here ra.sound.distinct))
        ∙ ap (λ n. some (url_of join n q)) same_port in
      subst
        (λ n. fetch codec a.urls send q.name ≡ (
          if n == b.config.host.name || contains n (names b.config.peers)
          then ok local
          else err (bad_status q.name 403)))
        (sym same_cn)
        (fetch-is_allowed codec a.urls send q.name (url_of join port q) cn version more
          b.allowed_names (cn == b.config.host.name || contains cn (names b.config.peers)) local url
          sent (rb.allowed_names cn))
