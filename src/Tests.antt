-- ===== src/Tests.antt =====
-- Runs of the model on small inputs, and the theorems at concrete inputs.
mod Hosts
mod Transfers
mod Structures
mod Tables
mod Places
mod Paths
mod Closing
mod Runs
mod Console
mod Failing
mod Making
mod Writing
mod System
mod Overfull
mod Spent
