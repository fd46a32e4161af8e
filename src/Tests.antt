-- ===== src/Tests.antt =====
-- Runs of the code on the inputs of tests/, and the theorems at concrete data.
mod Commands
mod Disk
mod Fixtures
mod Halda
mod Monitors
mod Online
mod Outputs
mod Settings
mod Witnesses
