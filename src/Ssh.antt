-- ===== src/Ssh.antt =====
-- The package ssh: sessions, forwardings and the pool.
pub mod Errors
pub mod Flags
pub mod Uri
pub mod Manager
pub mod Pool
