-- ===== src/Tests.antt =====
-- Runs of the theorems on concrete inputs, with concrete instances of what the program only calls.
mod Codec
mod Instances
mod Views
mod Mesh
mod Samples
mod Nodes
mod Access
mod Commands
mod Running
mod Issued
mod Plans
mod Daemon
