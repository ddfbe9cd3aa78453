-- ===== src/Redis.antt =====
-- The Redis honeypot (src/honeypots/redis_honeypot.py): the framing of a command and the in-memory
-- databases. The laws stand in the children.
pub mod Integers
pub mod Framing
pub mod Commands
pub mod Databases
pub mod Refinement
