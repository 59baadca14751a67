-- ===== src/Examples.antt =====
-- Concrete replicas, cells and services, and the theorems at them.
mod Replicas
mod Rounds
mod Locks
mod Clients
mod Calm
mod Threads
mod Pools
mod Sessions
mod Served
mod Starts
mod Forwarded
mod Measured
mod Interleaved
mod Leased
mod Excluded
mod Split
