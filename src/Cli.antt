-- ===== src/Cli.antt =====
-- internal/pkg/cli: the subcommands.
pub mod Files
pub mod Flags
pub mod Args
pub mod Named
pub mod Pki
pub mod Mutate
pub mod ConfigCommand
pub mod Dispatch
pub mod Program
pub mod Host
pub mod Status
pub mod User
