-- ===== src/Backup.antt =====
-- backup-service: backups of a PostgreSQL database, and restores to a point in time.
pub mod Bytes
pub mod Decimal
pub mod Catalog
pub mod Restore
pub mod Sql
pub mod Split
pub mod Lock
pub mod Scheduler
pub mod Wal
pub mod Checksums
pub mod Discover
