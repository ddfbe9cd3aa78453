-- ===== src/Analysis.antt =====
-- The analysis of recorded sessions: how a client types (src/analysis/bot_human_analyzer.py) and
-- its profile (src/analysis/attacker_profiler.py).
pub mod Typing
pub mod Records
pub mod Narrative
pub mod Profile
pub mod Fingerprint
pub mod Condenser
