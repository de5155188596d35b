-- ===== src/RuntimeConfig.antt =====
-- internal/server/runtime_config.go: a change of one configuration key on Brokers or NameServers,
-- with its validation, the nodes it is for, the new value, the writes with their verification, and
-- the rollback.
pub mod Values
pub mod Targets
pub mod Nodes
pub mod Apply
pub mod Request
pub mod Laws
pub mod Rollback
pub mod Failed
pub mod Restores
pub mod Applied
pub mod Succeeds
