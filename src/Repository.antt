-- ===== src/Repository.antt =====
-- pkg/repository
pub mod Quote
pub mod Query
pub mod Meta
pub mod Db
pub mod Crud
