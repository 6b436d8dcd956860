-- ===== src/Settings.antt =====
-- internal/modules/systemsetting: the settings of the system.
pub mod Model
pub mod Values
pub mod Service
pub mod Reads
pub mod Handler
pub mod Keys
