-- ===== src/Tests.antt =====
-- Concrete jobs and tables, and each theorem at one of them.
mod Api
mod Columns
mod Connection
pub mod Data
mod Sql
mod Parts
mod Rounds
mod Redis
mod Web
mod Queries
mod Running
