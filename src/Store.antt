-- ===== src/Store.antt =====
-- router/internal/store: the provider and channel rows, the routing cache, API keys and billing.
pub mod Database
pub mod Memory
pub mod Capability
pub mod Provider
pub mod Channel
pub mod Versions
pub mod Mutations
pub mod Cache
mod Tests
pub mod Import
pub mod Columns
pub mod Sync
