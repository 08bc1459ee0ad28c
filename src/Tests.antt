-- ===== src/Tests.antt =====
-- A store in memory that meets the laws of the interfaces, and the theorems at concrete inputs.
pub mod Memory
pub mod Store
pub mod School
pub mod CourseStore
mod AdminRoleTests
mod CourseworkTests
mod TaskTests
mod CourseTests
pub mod AccountStore
pub mod AccountTests
mod MiddlewareTests
mod LeaderboardTests
mod BackupTests
mod BackupFilesTests
mod BoardTests
mod WalTests
mod ChecksumTests
mod DiscoverTests
