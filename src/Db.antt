-- ===== src/Db.antt =====
-- internal/db: the rows that the program keeps and the statements it runs on them. SQLite itself is
-- modelled by `Db.Table`; the columns that hold the time of a statement are left out, since no code
-- reads them. Where a handler returns on a failed statement the failure is an argument of its model;
-- the statements whose errors are only logged succeed.
pub mod Table
pub mod Jobs
pub mod Scans
pub mod Schedules
pub mod Quarantine
