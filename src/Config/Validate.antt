-- ===== src/Config/Validate.antt =====
-- internal/pkg/config/validate.go: structural checks, with warnings beside the first hard error.
pub mod Laws
use mesh_checker.Base.{
  ℕ, ◌++◌, ◌&&◌, Bool, true, false, not, Option, none, some, List, [], ◌∷◌, Text, text_eq, nat_eq,
  codes, ◌==◌, if◌then◌else◌, length, Fallible, ok, err,
}
use mesh_checker.Base.Int.{ℤ, pos, ltb_ℤ, leb_ℤ}
use mesh_checker.Base.Dict.{contains}
use mesh_checker.Probe.{icmp, tcp, udp, https}
use mesh_checker.Config.{Config, Peer, schema_version}

pub data SecretField : Type 0 where
  udp_shared_secret session_secret : SecretField

pub data ConfigError : Type 0 where
  bad_version : ℤ → ConfigError
  no_host_name : ConfigError
  threshold_above_window : ℤ → ℤ → ConfigError
  bad_base64 : SecretField → ConfigError
  bad_length : SecretField → ℕ → ConfigError
  duplicate_peer : Text → ConfigError

-- `peer %q: unknown check %q (ignored)`
pub record Warning : Type 0 where
  pub peer : Text
  pub check : Text

abbrev pub valid_checks : List Text
valid_checks = icmp ∷ tcp ∷ udp ∷ https ∷ []

unfoldable pub is_valid_check : Text → Bool
is_valid_check ch = contains ch valid_checks

-- The loop over `p.Checks`.
unfoldable pub check_warnings : Text → List Warning → List Text → List Warning
check_warnings name warnings [] = warnings
check_warnings name warnings (ch ∷ checks) =
    check_warnings name
      (if not (is_valid_check ch)
        then warnings ++ (record { peer = name; check = ch } ∷ [])
        else warnings)
      checks

-- The loop over `c.Peers`; `seen` holds the names so far.
unfoldable pub check_peers :
    List Text → List Warning → List Peer → List Warning × Option ConfigError
check_peers seen warnings [] = (warnings, none)
check_peers seen warnings (p ∷ peers) =
    let rest = check_peers (p.name ∷ seen) (check_warnings p.name warnings p.checks) peers in
    if contains p.name seen then (warnings, some (duplicate_peer p.name)) else rest

-- `decode` is `base64.StdEncoding.DecodeString`; `none` is its error.
module _ (decode : Text → Option Text) where
  unfoldable pub check_secret : SecretField → Text → Option ConfigError
  unfolding nat_eq
  check_secret field b64 = elim (decode b64) [
    | none ↦ some (bad_base64 field)
    | some raw ↦ if not (length raw == 32) then some (bad_length field (length raw)) else none
  ]

  -- The checks of the two secrets, and the loop behind them.
  check_rest : Config → List Warning × Option ConfigError
  check_rest c = elim (check_secret udp_shared_secret c.probe.udp_shared_secret) [
    | some e ↦ ([], some e)
    | none ↦ elim (check_secret session_secret c.ui.session_secret) [
      | some e ↦ ([], some e)
      | none ↦ check_peers [] [] c.peers
    ]
  ]

  unfoldable pub validate_with_warnings : Config → List Warning × Option ConfigError
  unfolding check_rest
  validate_with_warnings c =
      if not (leb_ℤ c.version schema_version && leb_ℤ schema_version c.version)
      then ([], some (bad_version c.version))
      else if c.host.name == []
      then ([], some no_host_name)
      else if ltb_ℤ c.probe.failure_window c.probe.failure_threshold
      then ([], some (threshold_above_window c.probe.failure_threshold c.probe.failure_window))
      else check_rest c

  -- `Validate`
  unfoldable pub validate : Config → Option ConfigError
  validate c = (validate_with_warnings c).1
