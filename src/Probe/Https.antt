-- ===== src/Probe/Https.antt =====
-- internal/pkg/probe/http/http.go: a GET request whose answer has to carry a marker. The client,
-- which checks the peer's certificate against the mesh CA, is a parameter.
pub mod Reach
use mesh_checker.Base.{
  ◌++◌, Bool, true, false, not, [], Text, codes, nat_eq, ◌==◌, if◌then◌else◌, take, Fallible, ok,
  err,
}
use mesh_checker.Base.Int.{pos}
use mesh_checker.Decimal.{format_nat}
use mesh_checker.Probe.{Target, Result, Time, Duration}
use mesh_checker.Ui.Http.{Response, contains_text}

abbrev pub body_marker : Text
body_marker = codes "mesh-checker"

-- `NewRequestWithContext` for a URL, `Do` for the request that it made, and the time that it took.
-- The body of a response is what a read gives before its end or its first error.
pub record Client : Type 1 where
  pub Request : Type 0
  pub new_get : Text → Fallible Text Request
  pub send : Request → Fallible Text Response
  pub elapsed : Duration

-- From the response on. At most 1024 bytes of the body are read.
unfoldable pub check_response : Result → Response → Result
unfolding nat_eq
check_response r resp =
    if not (resp.status == 200)
    then record r { error = codes "status " ++ format_nat resp.status }
    else if not (contains_text (take 1024 resp.body) body_marker)
    then record r { error = codes "body marker missing" }
    else record r { is_ok = true }

abbrev pub answered : Result → Fallible Text Response → Result
answered r (err e) = record r { error = e }
answered r (ok resp) = check_response r resp

-- `Probe`
unfoldable pub probe : Client → Time → Target → Result
probe c start target = elim (c.new_get target.https_url) [
  | err e ↦ record { timestamp = start; latency = pos 0; is_ok = false; error = e }
  | ok req ↦
      answered (record { timestamp = start; latency = c.elapsed; is_ok = false; error = [] })
        (c.send req)
]
