-- ===== src/Ise.antt =====
-- ise/: the HTTP client and the wrappers of the two APIs of ISE
pub mod Models
pub mod Client
pub mod Ers
pub mod Mnt
pub mod Queries
