-- ===== src/Agent.antt =====
-- The agent: one module for each package under agent/internal, and for its command.
pub mod Accounts
pub mod Webserver
pub mod Database
pub mod Email
pub mod Dns
pub mod Dispatch
pub mod Metrics
pub mod Session
pub mod Main
