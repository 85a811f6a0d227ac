-- ===== src/Tests.antt =====
-- The theorems at concrete inputs, and the operations run on small examples.
mod Stores
mod Trackers
mod Protocols
mod Channels
mod Handlers
mod Writing
mod Sockets
mod Snapshots
