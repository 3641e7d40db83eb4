-- ===== src/Tests.antt =====
-- Tests, and the theorems that have hypotheses at concrete inputs.
mod Policy
mod Records
mod Batches
mod Starts
mod Codecs
mod Stores
mod Workers
mod Commands
mod Daemons
mod Bridges
mod Connections
mod Kills
mod Closings
