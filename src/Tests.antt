-- ===== src/Tests.antt =====
-- The theorems at concrete inputs.
mod Values
mod Whole
mod Jobs
mod Cranes
mod Photos
mod Accounts
mod Upgrades
mod Commands
mod Server
