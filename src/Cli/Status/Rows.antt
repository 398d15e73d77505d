-- ===== src/Cli/Status/Rows.antt =====
-- What the status table says of a node that answers.
use mesh_checker.Base.{
  ◌≡◌, refl, ap, ◌∙◌, ◌||◌, ◌++◌, List, [], ◌∷◌, Text, some, text_eq, codes, ◌==◌, if◌then◌else◌,
  length, Fallible, ok, Bool-cases, inl, inr,
}
use mesh_checker.Base.Dict
use mesh_checker.Base.Dict.{Dict, contains}
use mesh_checker.Decimal.{format_nat}
use mesh_checker.Aggregator.{ObserverView}
use mesh_checker.Config.{Config}
use mesh_checker.Config.Validate.Laws.{names}
use mesh_checker.Interhost.{Chain, Response, ViewCodec, status_path, new_mux, fetch, bad_status}
use mesh_checker.Interhost.Exchange.{fetch-new_mux}
use mesh_checker.Serve.{peer_names}
use mesh_checker.Cli.Status.{row_of, error_text}

-- The row of a node whose server is reached over TLS with a verified chain: the host that it names,
-- and how many peers it knows, if it knows the asking node; and the status 403 if it does not.
pub row_of-new_mux :
    (quote : Text → Text) (codec : ViewCodec) (urls : Dict Text Text)
    (send : Text → Fallible Text Response) (peer base cn version : Text) (more : List Chain)
    (c : Config) (local : ObserverView)
    → Dict.lookup peer urls ≡ some base
    → send (base ++ status_path)
      ≡ ok (
          new_mux codec
            (peer_names c)
            local
            version
            (record { path = status_path; tls = some (record { common_name = cn } ∷ more) }))
    → row_of quote peer (fetch codec urls send peer) ≡ (
        if cn == c.host.name || contains cn (names c.peers)
        then local.host
          ∷ codes "yes"
          ∷ (format_nat (length local.samples) ++ codes " peers known")
          ∷ []
        else peer ∷ codes "no" ∷ error_text quote (bad_status peer 403) ∷ [])
unfolding row_of
row_of-new_mux quote codec urls send peer base cn version more c local url answered =
    ap (row_of quote peer)
      (fetch-new_mux codec urls send peer base cn version more c local url answered)
    ∙ elim (Bool-cases (cn == c.host.name || contains cn (names c.peers))) [
      | inl e ↦ rw e refl
      | inr e ↦ rw e refl
    ]
