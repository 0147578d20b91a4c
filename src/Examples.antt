-- ===== src/Examples.antt =====
-- A cluster in memory that meets the assumptions, runs of the program over it, and the theorems at
-- concrete data.
mod Shelf
mod Memory
mod Limits
mod Reconciles
mod Streams
mod Following
mod Sending
mod Rates
mod Starting
mod Threads
mod Waking
mod Copying
mod Recording
mod Asking
mod Alerting
mod Channels
mod DeepCopies
