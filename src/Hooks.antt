-- ===== src/Hooks.antt =====
-- src/hooks/hooks.c, as it compiles for PostgreSQL 18: what a backend knows about its session, the
-- text of a statement that it keeps, the events that it builds, the log hook and the nesting of the
-- executor hooks.
--
-- Chained hooks of other extensions and the standard functions of PostgreSQL are parameters.
pub mod Session
pub mod Build
pub mod Parse
pub mod Capture
pub mod Nesting
