-- ===== src/Repo.antt =====
-- internal/db/repo: the interfaces that the services call.
pub mod Role
pub mod User
pub mod Homework
pub mod Stored
pub mod Course
pub mod Grouped
pub mod Board
pub mod Leaderboard
