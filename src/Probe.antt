-- ===== src/Probe.antt =====
-- internal/pkg/probe/probe.go: the types that the scheduler, the store and the probers share.
pub mod Https
pub mod Tcp
use mesh_checker.Base.{Bool, false, Text, codes, []}
use mesh_checker.Base.Int.{ℤ, pos}

-- Go declares it as a string, and a configuration may name any string as a check.
abbrev pub Protocol : Type 0
Protocol = Text

abbrev pub icmp : Protocol
icmp = codes "icmp"

abbrev pub tcp : Protocol
tcp = codes "tcp"

abbrev pub udp : Protocol
udp = codes "udp"

abbrev pub https : Protocol
https = codes "https"

-- Instants and durations in nanoseconds; an instant counts from the Unix epoch.
abbrev pub Time : Type 0
Time = ℤ

abbrev pub Duration : Type 0
Duration = ℤ

pub record Target : Type 0 where
  pub name : Text
  pub addr : Text
  pub tcp_port : ℤ
  pub udp_port : ℤ
  pub https_url : Text

-- `Result`. The error text of a failed probe is kept as it is.
pub record Result : Type 0 where
  pub timestamp : Time
  pub latency : Duration
  pub is_ok : Bool
  pub error : Text

-- The zero value, with which `make([]probe.Result, n)` fills a slice.
abbrev pub zero_result : Result
zero_result = record { timestamp = pos 0; latency = pos 0; is_ok = false; error = [] }
