-- ===== src/Tests.antt =====
-- Runs of the theorems at concrete values.
mod Stores
mod Server
mod Client
mod Generator
mod Observed
mod Network
mod Agent
mod Database
mod Configured
mod Stopping
mod Pools
mod Batches
