-- ===== src/Tests.antt =====
-- Runs of the theorems at concrete inputs, with scripted peers.
mod Hosts
mod Drained
mod Interleaved
mod Documents
mod Statements
mod Consents
mod Sessions
mod Users
mod Workflows
mod Clients
mod Generated
mod Contracts
mod Setups
mod Scores
mod Starts
mod Started
mod Notified
mod Certificates
mod Deliveries
mod Grants
mod Encrypted
