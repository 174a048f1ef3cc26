-- ===== src/Sql.antt =====
-- The SQL driver (driver/sqldriver). A statement is a function on the tables; see `Store` and
-- `Statement`. The SQL engine itself, and the drivers of database/sql, are not modelled.
pub mod Store
pub mod Statement
pub mod Enqueue
pub mod Claim
pub mod Finish
pub mod Admin
pub mod Arrays
pub mod Columns
pub mod Connection
pub mod Migrate
pub mod Query
pub mod Statistics
pub mod Lease
pub mod Changes
pub mod Keys
pub mod Invariant
pub mod Locks
pub mod Leader
pub mod Pending
pub mod Claimed
pub mod Outcomes
pub mod Batch
pub mod Taken
