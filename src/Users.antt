-- ===== src/Users.antt =====
-- internal/modules/user: users, their passwords, and the handlers.
pub mod Model
pub mod Service
pub mod Handler
pub mod Passwords
pub mod Argon2
