-- ===== src/Tests.antt =====
-- Concrete inputs: a database in memory, tests of the definitions on it, and the theorems at it.
mod Tables
mod Store
mod Repository
mod Iam
mod Auth
mod Sessions
mod Settings
mod Locks
mod Tasks
mod Routes
mod Users
mod Permissions
mod Http
mod Hashes
mod Limits
mod Quotas
mod Binding
mod Startup
