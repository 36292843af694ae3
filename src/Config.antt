-- ===== src/Config.antt =====
-- src/config: the types, the checks, validation and loading.
pub mod Types
pub mod Checks
pub mod Urls
pub mod Validate
pub mod Valid
pub mod Load
