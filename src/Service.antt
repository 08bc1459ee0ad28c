-- ===== src/Service.antt =====
-- internal/service
pub mod Permission
pub mod User
pub mod Auth
pub mod CourseInput
pub mod Course
pub mod Pagination
pub mod AdminRole
pub mod Dates
pub mod Homework
pub mod Deadline
pub mod Task
