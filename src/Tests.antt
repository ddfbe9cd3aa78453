-- ===== src/Tests.antt =====
-- Concrete runs of the theorems, one child per part of the program.
mod Logins
mod Budget
mod Caching
mod Shells
mod Inputs
mod Reports
mod Channels
mod Messages
mod Sessions
mod Queries
