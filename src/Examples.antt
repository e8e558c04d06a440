-- ===== src/Examples.antt =====
-- Runs of the definitions at concrete inputs, and the theorems applied there.
mod Machines
mod Frames
mod Cluster
mod Gateway
mod Auth
mod Karma
mod Chains
mod Programs
mod Spatial
mod Storage
mod Mailbox
mod Coordinator
mod Memory
