-- ===== src/Topic.antt =====
-- internal/rocketmq/topic_mutation.go: the write requests, a module for each, with their defaults,
-- their validation and their labels.
pub mod Refusal
pub mod Config
pub mod Delete
pub mod Send
pub mod Reset
