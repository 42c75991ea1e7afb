-- ===== src/Lib.antt =====
-- ClamAV WebUI: a model of the Go program that administers a ClamAV installation, and the theorems
-- about it.
--
-- The program is one process: an HTTP server over a SQLite database, a pool of workers that run
-- jobs, a scheduler that starts scans, a dispatcher that sends notifications, and a layer that runs
-- the commands of ClamAV and of the system. A request or a tick of the scheduler makes a scan row
-- and a job; a worker takes the job, mounts the disk images among its targets, runs the scanner and
-- records the outcome; infected files are moved to the quarantine on request.
--
-- Which file models which part:
--   Auth/Limiter     internal/auth/ratelimit.go (LoginLimiter.Allow, Reset)
--   Auth/Sessions    internal/auth/session.go (SessionManager)
--   Auth/Requests    internal/api/auth.go, auth_handlers.go, password.go: the guards of the routes
--                    and the requests on the admin password, over the two above
--   Notify           internal/notify/notify.go: configuration, queue, channels, SMTP exchange
--   Db               internal/db: tables with AUTOINCREMENT ids, and the statements on jobs, scans,
--                    schedules, findings and quarantined items
--   Worker           internal/worker/worker.go: the manager's queue, running set and job rows
--   Scans            internal/api/scans.go and runScheduledScan of internal/api/schedules.go; Scans/Run
--                    is runScan as a whole, over Clam/Mount, Clam/Scan and the tables
--   Schedules        internal/scheduler/scheduler.go and the requests of internal/api/schedules.go
--   Quarantine       internal/quarantine/store.go, internal/api/quarantine.go
--   Sse              internal/sse/bus.go: the event bus
--   Clam/Scan        internal/clamav/scan.go: the command, the lines of the scanner, the result
--   Clam/Exec        internal/clamav/exec.go: the bounded capture (Run) and the lines (Stream)
--   Clam/Journal     ParseOnAccessFound of internal/clamav/services.go
--   Clam/Units       Services, Service and ServiceLogs of internal/clamav/services.go
--   Clam/OnAccess    ApplyOnAccess of internal/clamav/onaccess.go, over Clam/Conf and Clam/Services
--   Clam/Streamed    a scan over the runner, from the scanner's writes to the result
--   Clam             the rest of internal/clamav: disk images (mount.go), actions (services.go), the
--                    update of the signatures (freshclam.go), and the settings
--                    files, read and written (config_files.go)
--   Monitor          internal/api/onaccess_tailer.go and freshness_monitor.go: their loops, as rounds
--                    over what each of them meets, and the detections in the journal's lines;
--                    Monitor/Signatures: Signatures of internal/clamav/freshclam.go
--   Config           internal/config/config.go: the configuration of the program
--   Settings         internal/api/config.go: the requests on the settings files
--   Prelude          shared types, lists, maps, channels and their lemmas
--
-- Conventions. A method with a receiver is a function that returns the new state. What several
-- goroutines do is a step relation (`Step`, `Reach`), where any of them may be next. In Worker a step
-- is one statement on the database, one send or receive, or one critical section of the mutex, and a
-- goroutine follows its order by the place at which it stands; `enqueue` composes the steps of one
-- caller. In Scans, Schedules, Quarantine, Auth and Settings a step is a whole request or tick, so
-- that what two requests do at once is one after the other. Times are nanoseconds as natural
-- numbers, read by the caller. A call of the operating system or of the network is an argument:
-- either a flag, or a function from the calls so far to the outcome of the next one, so that a
-- theorem holds for every behaviour of the system. The outcome of a database write is a flag in
-- Worker, in the creation, cancel and ticks of scans, in Scans/Run and in Quarantine; where a
-- definition has no such flag, its writes succeed. Text functions of the Go library that are not
-- written out are fields of a record (`Texts`, `PathLib`, `Lib`, `Env`, `ConfLib`). Every loop is
-- structural recursion, but that of the decimal digits, whose fuel is more than the number that it
-- prints. The bounds are the program's: 64 queued jobs, 256 queued notifications, 64 events for a
-- subscriber, 64 scan targets.
--
-- Not modelled: the opening and the migrations of the database, JSON and routing, listings, argon2
-- and random bytes, the processes that are run, the HTTP side of the event stream, the
-- simulator, the web frontend and the packaging.

pub mod Prelude
pub mod Auth
pub mod Notify
pub mod Db
pub mod Worker
pub mod Clam
pub mod Scans
pub mod Quarantine
pub mod Schedules
pub mod Sse
pub mod Config
pub mod Settings
pub mod Monitor
