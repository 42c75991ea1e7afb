-- ===== src/Quarantine.antt =====
-- internal/quarantine, internal/db/quarantine.go and internal/api/quarantine.go: the store of infected
-- files, its rows and its handlers. The operating system is a parameter.
pub mod Files
pub mod Store
pub mod Items
mod Tests
