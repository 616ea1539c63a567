-- ===== src/Routines.antt =====
-- internal/routines: the pool of routines that a queue runs its work in.
pub mod Pool
