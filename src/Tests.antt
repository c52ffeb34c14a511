-- ===== src/Tests.antt =====
-- The theorems at concrete inputs.
mod Fixtures
mod Core
mod Index
mod Storage
mod Search
mod Api
mod Registry
mod Delivery
mod Environment
mod Handlers
mod Server
mod Readers
mod Bundles
mod Migrations
mod Writes
mod Network
