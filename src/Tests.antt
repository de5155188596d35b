-- ===== src/Tests.antt =====
-- The properties at concrete inputs, and runs of the code at others.
mod Chain
mod Topic
mod Snapshot
mod Auth
mod Audit
mod Registry
mod Shadow
mod Remoting
mod RuntimeConfig
mod Batch
