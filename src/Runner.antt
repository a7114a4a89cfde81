-- ===== src/Runner.antt =====
-- internal/runner: one host's steps, its connection, and the schedule of all hosts.
pub mod Env
pub mod Step
pub mod Reconnect
pub mod Disconnect
pub mod Connect
pub mod Host
pub mod Schedule
pub mod Report
pub mod Once
pub mod Prepare
