-- ===== src/Remoting.antt =====
-- internal/rocketmq/goadmin/remoting_client.go: the native client's own computations. A module for
-- the order of Java hash maps, one for the allocation of queues to consumers, one for the frames of
-- the remoting protocol.
pub mod JavaOrder
pub mod Allocation
pub mod Frame
pub mod Properties
pub mod MessageId
