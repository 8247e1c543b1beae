-- ===== src/Tests.antt =====
-- The theorems at concrete inputs.
mod System
mod Ports
mod Runs
mod Install
mod Tunnels
mod Services
mod Processes
mod Ranges
mod Interleaved
mod Updates
mod Server
mod Lookup
mod Tasks
mod Client
mod Addresses
mod Accounts
