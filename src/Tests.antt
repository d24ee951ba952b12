-- ===== src/Tests.antt =====
-- The theorems at concrete inputs, and tests of the definitions.
mod Ids
mod Shards
mod Queue
mod Store
mod Engine
mod Contacts
mod Sessions
mod Startup
mod Connections
mod Requests
mod Assembled
mod Providers
