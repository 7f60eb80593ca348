-- ===== src/Tests.antt =====
-- Runs on concrete inputs: the components' properties, applied.
mod Caches
mod Evictions
mod Queues
mod Configs
mod Pools
mod Predictors
mod Files
mod Buckets
mod Objects
mod Workers
mod Systems
mod Programs
