-- ===== src/Udp.antt =====
-- internal/pkg/probe/udp: the wire format, the replay cache, and the client's prober.
pub mod Mac
pub mod Payload
pub mod Replay
pub mod Prober
