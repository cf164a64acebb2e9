-- ===== src/Validation.antt =====
-- validation.py: the checks of inputs, and the gates on tools and writes
pub mod Mac
pub mod Ip
pub mod Names
pub mod Gate
