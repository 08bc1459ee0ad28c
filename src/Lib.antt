-- ===== src/Lib.antt =====
-- The backend of a course platform (Go, internal/): who may do what, and what every call of a service
-- does to the stored rows; and its backup service (backup-service/): which backups are made and kept, and
-- what a restore brings back.
--
-- The program is in layers. The services (internal/service) check the input, ask for a permission,
-- read and write rows through the repositories (internal/db/repo), and count what was done in
-- prometheus counters (internal/metrics); the handlers (internal/handler) turn a service error into
-- an HTTP answer, and a middleware (internal/middleware) admits the requests to protected routes. Here
--   - an error is a value of Errors.Error: internal/service/errors.go and the errors of gorm and pgx
--     that the services look into;
--   - a read of the database is a function from its state to a Result, and a call that may write is
--     an Action: a function from the state to a Result and a state (Errors.Action);
--   - a counter that is moved in a deferred call is Metrics.World.deferring around the body of the
--     method, so that every early return is counted; method_body is the body, method the whole;
--   - a Go pointer or slot that may be nil is an Option, an id is a natural number and uuid.Nil is 0,
--     an int is an integer of Prelude.Int, and a time.Time is an integer, 0 for the zero time.
--
-- Which file models which part:
--   Model                 internal/db/model: the rows
--   Repo.Role             internal/db/repo/role.go: Repository is the code over the statements that
--                         gorm runs (Tables), Interface the contract that the services rely on, and
--                         Laws proves the contract of the code, with Rows, Listed, Reads and
--                         Transactions
--   Repo.Homework, Repo.Course, Repo.User
--                         the interfaces of homework.go, task.go, deadline.go, course.go, user.go,
--                         session.go and stats.go there, with the laws that the services rely on
--   Repo.Stored           one table of rows, and what its create, get, update and delete promise
--   Repo.Leaderboard      GetLeaderboard of internal/db/repo/course.go, from the rows of its query
--   Repo.Board            GetCourseBoard and GetCourseInfo there, over the queries that gorm runs
--                         (BoardQueries); Sums, Percent, Contents, and Repo.Grouped for the maps of rows
--   Metrics.Admin         internal/metrics/admin.go, internal/service/admin_metrics.go
--   Service.Permission    internal/service/permission.go: Names, Check, Grant; Decision, Effects
--   Service.AdminRole     internal/service/admin_role.go; what its calls may change: Bodies, Methods;
--                         sequences of calls: Isolation, Requests
--   Service.Homework, Service.Deadline
--                         internal/service/admin_homework.go, consistency.go
--   Service.Task          internal/service/admin_task.go; Score for SetScore
--   Service.Dates, Service.CourseInput, Service.Course
--                         internal/service/course.go: dates, the tests of the input, the methods
--   Service.Pagination    internal/service/pagination.go, session.go, stats.go
--   Service.User          internal/service/user.go; Accounts
--   Service.Auth          internal/service/auth.go; Methods, SignUp, Requests
--   Handler.ErrorAnswer   internal/handler/errors.go
--   Middleware.Auth       internal/middleware/auth.go; Guards, and SignedIn for what follows a sign-in
--   Backup.Catalog        backup-service/internal/backup/backuper.go and metadata.go: the output directory and
--                         CreateBackup; Listing, Sorting, Linked, Sound, History, ChainLength, and Retention for
--                         its cleanup
--   Backup.Restore        backup-service/internal/restore/restorer.go: Chain for the backups that a restore
--                         takes, PointInTime, Versions and Restored for what it brings back, Succeeds, and Recovery
--                         for a restore from what CreateBackup left
--   Backup.Split          backup-service/internal/backup/splitter.go and internal/restore/assembler.go;
--                         Backup.Decimal for the numbers in the names of parts
--   Backup.Checksums      backup-service/internal/backup/metadata.go, WriteChecksums and VerifyChecksums; Lines,
--                         Verified
--   Backup.Sql            backup-service/internal/sqlutil/sqlutil.go, ChangeExpr of internal/pg/schema.go,
--                         buildUpsert of internal/restore/restorer.go; Quoting, Statements
--   Backup.Discover       backup-service/internal/pg/schema.go, DiscoverCDCTables; Tracked
--   Backup.Lock, Backup.Scheduler
--                         backup-service/internal/lock/lock.go and internal/scheduler/scheduler.go;
--                         Exclusion
--   Backup.Wal            backup-service/internal/wal: basebackup.go and restore.go; Archiver for archiver.go,
--                         Label for parseStartWALFile of common.go; Bases, Trimming, Recovered
--   Tests                 a store in memory that meets the laws, and runs at concrete inputs
-- A definition is named after the Go function in snake_case (AssignCourseAdmin is
-- assign_course_admin); a branch of a function that has a name of its own here is a helper of it.
--
-- The backup service is a program of its own. An instant there is a number and a path or an SQL text a list
-- of bytes (Backup.Bytes). Of a database that is backed up, each row has the instants of its changes; a
-- database that is restored has for each row the instant of the change that made its version. Jobs
-- of the scheduler go on in steps, in any order.
--
-- A loop over a slice is structural recursion. Two loops run on fuel: that of SplitFile, with one round more
-- than the file has bytes, and that of Backup.Decimal.digits, with one round more than the number: a
-- round that goes on takes at least one byte, or makes the number smaller.
--
-- What the code takes from elsewhere is a parameter: gorm's statements (TableLaws, RowLaws,
-- CourseLaws, UserLaws, SessionLaws, KeepsSessions, LookupLaws say what is relied on), time.Parse,
-- bcrypt, uuid.New, uuid.Parse, the
-- generator of invite codes, the counters of prometheus, and sort.Slice, which returns its rows in
-- an order by the comparison. The laws of a repository allow any read or write to fail and say what
-- is stored when it does not. The services read from a replica (ReadDB of internal/db/client.go) and
-- write to the master (WriteDB): a method is modelled on one state, that of a replica that has caught up,
-- and SignedIn on two, the master that a sign-in writes and the replica that a request
-- reads. Tests has an instance of each.
--
-- Of the backup service, the outcomes of pg_dump, pg_restore, psql and of the file system are in a record
-- (BackupRun, RestoreTools, BaseRun, RecoverTools) or an argument, flock grants a file to one open file at a time, the SHA-256 of a
-- content is a function of it, and time.Format a function of the instant.
--
-- Not modelled: ExportScores of the courses and GetMe of the sign-in (planned), the
-- decoding of requests in the handlers, start-up, configuration and migrations
-- (I/O), health-monitor (a polling loop), and of the backup service the
-- calls of the tools of PostgreSQL, configuration, health, logging and the command line.
pub mod Prelude
pub mod Errors
pub mod Model
pub mod Repo
pub mod Metrics
pub mod Service
pub mod Handler
pub mod Middleware
pub mod Backup
pub mod Tests
