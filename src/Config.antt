-- ===== src/Config.antt =====
-- internal/pkg/config/config.go: the schema of the configuration file.
pub mod Validate
pub mod Files
use mesh_checker.Base.{List, Text}
use mesh_checker.Base.Int.{ℤ, pos}

abbrev pub schema_version : ℤ
schema_version = pos 1

pub record HostInfo : Type 0 where
  pub name : Text
  pub advertise_addr : Text

pub record PkiPaths : Type 0 where
  pub ca_cert_path : Text
  pub ca_key_path : Text
  pub host_cert_path : Text
  pub host_key_path : Text

pub record ListenerAddr : Type 0 where
  pub addr : Text

pub record ProbeListener : Type 0 where
  pub http_addr : Text
  pub udp_addr : Text

pub record Listeners : Type 0 where
  pub inter_host : ListenerAddr
  pub ui : ListenerAddr
  pub probe : ProbeListener

pub record ProbeSettings : Type 0 where
  pub interval_seconds : ℤ
  pub jitter_percent : ℤ
  pub timeout_seconds : ℤ
  pub failure_window : ℤ
  pub failure_threshold : ℤ
  pub ringbuffer_size : ℤ
  pub udp_shared_secret : Text

pub record Peer : Type 0 where
  pub name : Text
  pub addr : Text
  pub checks : List Text
  pub tcp_port : ℤ
  pub udp_port : ℤ
  pub https_url : Text

pub record User : Type 0 where
  pub name : Text
  pub password_hash : Text

pub record Ui : Type 0 where
  pub users : List User
  pub session_secret : Text
  pub session_ttl_seconds : ℤ

pub record Log : Type 0 where
  pub level : Text

pub record Config : Type 0 where
  pub version : ℤ
  pub host : HostInfo
  pub pki : PkiPaths
  pub listeners : Listeners
  pub probe : ProbeSettings
  pub peers : List Peer
  pub ui : Ui
  pub log : Log
