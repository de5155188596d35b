-- ===== src/Registry.antt =====
-- internal/server/cluster_registry.go: the definitions of clusters, what of them is accepted, and the
-- registry of the clusters that the pages add, change and remove while the server runs.
pub mod Definition
pub mod First
pub mod App
pub mod Startup
