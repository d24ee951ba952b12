-- ===== src/Providers.antt =====
-- internal/pkg/providers: what is made of the configuration.
pub mod Hooks
pub mod Shards
pub mod OAuth
pub mod Kafka
pub mod Databases
pub mod Mongo
pub mod Clients
pub mod Tokens
pub mod Careful
