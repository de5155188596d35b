-- ===== src/Shadow.antt =====
-- internal/rocketmq/goadmin: the plan of a shadow comparison between providers, the comparison of two
-- outputs, and the statistics over many comparisons.
pub mod Plan
pub mod Compare
pub mod Summary
pub mod Workers
pub mod Batch
