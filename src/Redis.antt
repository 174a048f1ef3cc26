-- ===== src/Redis.antt =====
-- The Redis driver, driver/redisdriver/driver.go.
pub mod Store
pub mod Enqueue
pub mod Claim
pub mod Finish
pub mod Admin
pub mod Linked
pub mod Steps
pub mod Invariant
pub mod Claimed
pub mod Batches
pub mod Nodes
pub mod Owner
pub mod Query
pub mod Statistics
pub mod Pages
