-- ===== src/Examples.antt =====
-- Concrete states of the daemon on which the theorems are applied, and runs of the code on them.
mod Fixtures
mod Clients
mod Daemons
mod Endings
mod Startups
mod Shutdowns
mod Stores
mod Sessions
mod Configs
mod Runners
mod Tokens
mod Payloads
mod Tasks
mod Orphans
mod Requests
mod Dispatches
mod Fetches
mod Identities
mod Polls
mod Muxes
mod Forwards
