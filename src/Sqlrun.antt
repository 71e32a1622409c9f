-- ===== src/Sqlrun.antt =====
-- internal/sqlrun: the guard between generated SQL and the databases.
pub mod Lexer
pub mod Classify
pub mod Permissions
pub mod Run
