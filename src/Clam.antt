-- ===== src/Clam.antt =====
-- internal/clamav: what the program asks of the ClamAV installation and of the system.
pub mod Options
pub mod System
pub mod Scan
pub mod Streamed
pub mod Exec
pub mod Services
pub mod Units
pub mod Mount
pub mod Conf
pub mod OnAccess
pub mod Journal
mod Tests
