-- ===== src/Tests.antt =====
-- The theorems applied at concrete inputs, one file for each part.
mod Atomic
mod Threads
mod Sockets
mod Broadcast
mod Datapoints
mod Aggregation
mod Client
mod System
mod Connections
mod Leader
mod Network
mod Vms
mod Relay
mod Controller
