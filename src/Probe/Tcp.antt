-- ===== src/Probe/Tcp.antt =====
-- internal/pkg/probe/tcp/tcp.go: a connection that is opened and closed. The dialer is a parameter.
use mesh_checker.Base.{true, false, [], Text, Fallible, ok, err}
use mesh_checker.Decimal.{format_int}
use mesh_checker.Probe.{Target, Result, Time, Duration}

pub record Prober : Type 0 where
  pub timeout : Duration

-- `net.JoinHostPort`, `DialContext` within the prober's timeout, and the time that it took.
pub record Dialer : Type 0 where
  pub join_host_port : Text → Text → Text
  pub dial : Duration → Text → Fallible Text (Unit {0})
  pub elapsed : Duration

abbrev pub dialed : Result → Fallible Text (Unit {0}) → Result
dialed r (err e) = record r { error = e }
dialed r (ok _) = record r { is_ok = true }

-- `Probe`
unfoldable pub probe : Dialer → Prober → Time → Target → Result
probe d p start target =
    dialed (record { timestamp = start; latency = d.elapsed; is_ok = false; error = [] })
      (d.dial p.timeout (d.join_host_port target.addr (format_int target.tcp_port)))
