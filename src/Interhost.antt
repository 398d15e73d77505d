-- ===== src/Interhost.antt =====
-- internal/pkg/server/interhost: the API between the nodes, and its client.
pub mod Exchange
use mesh_checker.Base.{
  ℕ, Bool, true, false, not, Option, none, some, List, [], ◌∷◌, ◌++◌, Text, text_eq, nat_eq, codes,
  ◌==◌, if◌then◌else◌, Fallible, ok, err, ◌≡◌,
}
use mesh_checker.Base.Dict
use mesh_checker.Base.Dict.{Dict}
use mesh_checker.Aggregator.{ObserverView}

-- A verified chain, of which the code reads the common name of the first certificate.
pub record Chain : Type 0 where
  pub common_name : Text

-- `tls` is `none` without TLS, and else holds the verified chains.
pub record Request : Type 0 where
  pub path : Text
  pub tls : Option (List Chain)

pub record Response : Type 0 where
  pub status : ℕ
  pub body : Text

-- `http.Error`
abbrev pub forbidden : Text → Response
forbidden text = record { status = 403; body = text ++ (10 ∷ []) }

-- A missing key of a Go map of truth values reads as false.
unfoldable pub is_allowed : Dict Text Bool → Text → Bool
is_allowed peers cn = elim (Dict.lookup cn peers) [ none ↦ false | some b ↦ b ]

unfoldable pub peer_cn_check : Dict Text Bool → (Request → Response) → Request → Response
peer_cn_check peers next r = elim r.tls [
  | none ↦ forbidden (codes "mTLS required")
  | some chains ↦ elim chains [
    | [] ↦ forbidden (codes "mTLS required")
    | c ∷ more ↦
        if not (is_allowed peers c.common_name) then forbidden (codes "unknown peer") else next r
  ]
]

-- `encoding/json` on a view: what was written is read again.
pub record ViewCodec : Type 0 where
  pub encode : ObserverView → Text
  pub decode : Text → Fallible Text ObserverView
  pub decode-encode : (v : ObserverView) → decode (encode v) ≡ ok v

abbrev pub status_path : Text
status_path = codes "/api/peer/status"

pub data FetchError : Type 0 where
  no_url : Text → FetchError
  not_sent : Text → FetchError
  bad_status : Text → ℕ → FetchError
  bad_body : Text → FetchError

module _ (codec : ViewCodec) where
  -- `NewMux`: `local` is the view that `FetchLocal` gives, `version` the build's version, quoted.
  unfoldable pub new_mux : Dict Text Bool → ObserverView → Text → Request → Response
  unfolding text_eq
  new_mux peers local version r =
      if r.path == status_path
      then peer_cn_check peers (λ q. record { status = 200; body = codec.encode local }) r
      else if r.path == codes "/api/peer/version"
      then peer_cn_check peers
          (λ q. record {
            status = 200;
            body = codes "{\"version\":" ++ (version ++ codes ",\"schemaVersion\":1}");
          })
          r
      else record { status = 404; body = codes "404 page not found" }

  -- `Fetch`: `send` makes the request of a URL and waits for the response.
  unfoldable pub fetch :
      Dict Text Text → (Text → Fallible Text Response) → Text → Fallible FetchError ObserverView
  unfolding nat_eq
  fetch urls send peer = elim (Dict.lookup peer urls) [
    | none ↦ err (no_url peer)
    | some base ↦ elim (send (base ++ status_path)) [
      | err e ↦ err (not_sent e)
      | ok resp ↦
          if not (resp.status == 200)
          then err (bad_status peer resp.status)
          else elim (codec.decode resp.body) [ err e ↦ err (bad_body e) | ok v ↦ ok v ]
    ]
  ]
