-- ===== src/Cli/Status.antt =====
-- internal/pkg/cli/status.go: a table of which nodes answer. `table` lays out rows of cells: package
-- text/tabwriter; `quote` is `%q`.
pub mod Rows
use mesh_checker.Base.{
  ◌++◌, Option, none, some, List, [], ◌∷◌, Text, codes, length, Fallible, ok, err, ◌>>=◌,
}
use mesh_checker.Base.Dict.{Dict}
use mesh_checker.Decimal.{format_nat}
use mesh_checker.Aggregator.{ObserverView}
use mesh_checker.Config.{Config}
use mesh_checker.Config.Files.{Json, Disk, FileError, load}
use mesh_checker.Interhost.{
  Response, ViewCodec, FetchError, no_url, not_sent, bad_status, bad_body, fetch,
}
use mesh_checker.Serve.Prepare.{Platform, peer_urls}
use mesh_checker.Cli.Args.{config_flag, config_path}
use mesh_checker.Cli.Flags.{FlagError, parse_flags}

pub data StatusError : Type 0 where
  bad_flags : FlagError → StatusError
  not_loaded : FileError → StatusError
  no_ca no_key_pair bad_addr : Text → StatusError

abbrev pub with_error : {E A : Type 0} → (E → StatusError) → Fallible E A → Fallible StatusError A
with_error f (ok a) = ok a
with_error f (err e) = err (f e)

module _ (quote : Text → Text) where
  -- `err.Error()` of `Fetch`.
  abbrev pub error_text : FetchError → Text
  error_text (no_url peer) = codes "interhost: no URL configured for peer " ++ quote peer
  error_text (not_sent e) = e
  error_text (bad_status peer status) =
      codes "interhost: peer " ++ (quote peer ++ (codes " returned " ++ format_nat status))
  error_text (bad_body e) = e

  -- One pass of the loop.
  unfoldable pub row_of : Text → Fallible FetchError ObserverView → List Text
  row_of name (err e) = name ∷ codes "no" ∷ error_text e ∷ []
  row_of name (ok v) =
      v.host ∷ codes "yes" ∷ (format_nat (length v.samples) ++ codes " peers known") ∷ []

  unfoldable pub rows_of : (Text → Fallible FetchError ObserverView) → List Text → List (List Text)
  rows_of get [] = []
  rows_of get (name ∷ names) = row_of name (get name) ∷ rows_of get names

  -- What the command has when it starts to ask: the CA, which may be empty, the key pair, and the
  -- URLs.
  module _ (d : Disk) (json : Json) (p : Platform d.State) (codec : ViewCodec) where
    unfoldable pub gather :
        d.State → Text → Fallible StatusError (Option p.CaPool × p.KeyPair × Dict Text Text)
    gather s path = do
      c ← with_error not_loaded (load d json s path)
      ca_pem ← with_error no_ca (d.read_file s c.pki.ca_cert_path)
      pair ← with_error no_key_pair (p.load_key_pair s c.pki.host_cert_path c.pki.host_key_path)
      (_, port) ← with_error bad_addr (p.split_host_port c.listeners.inter_host.addr)
      ok (p.certs_from_pem ca_pem, pair, peer_urls p.join_host_port port c)

    -- `send` is the client for a CA and a key pair, with its timeout; `order` is the order in which
    -- Go goes through the URLs.
    unfoldable pub run_status :
        (Option p.CaPool → p.KeyPair → Text → Fallible Text Response)
        → (Dict Text Text → List Text)
        → (List (List Text) → Text)
        → d.State
        → List Text
        → Fallible StatusError Text
    run_status send order table s args = elim (parse_flags (config_flag ∷ []) args) [
      | err e ↦ err (bad_flags e)
      | ok (flags, rest) ↦ elim (gather s (config_path flags)) [
        | err e ↦ err e
        | ok (pool, pair, urls) ↦ ok (
            table (
              (codes "HOST" ∷ codes "REACHABLE" ∷ codes "DETAIL" ∷ [])
              ∷ rows_of (fetch codec urls (send pool pair)) (order urls)))
      ]
    ]
