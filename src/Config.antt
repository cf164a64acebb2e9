-- ===== src/Config.antt =====
-- config.py: the record of settings, how it is read from the environment and how it is validated
pub mod Record
pub mod Load
pub mod Validate
pub mod Laws
pub mod Lists
