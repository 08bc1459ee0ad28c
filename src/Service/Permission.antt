-- ===== src/Service/Permission.antt =====
-- internal/service/permission.go: who may do what. `Names` has the permissions and the roles' sets,
-- `Check` the reads, `Grant` the writes, and the other children their theorems.
pub mod Names
pub mod Check
pub mod Grant
pub mod Decision
pub mod Effects
