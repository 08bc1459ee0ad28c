-- ===== src/Repo/Role.antt =====
-- internal/db/repo/role.go: the interface and its laws, the tables behind it, and the repository.
pub mod Interface
pub mod Tables
pub mod Repository
pub mod Rows
pub mod Transactions
pub mod Listed
pub mod Reads
pub mod Laws
