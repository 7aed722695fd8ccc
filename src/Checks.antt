-- ===== src/Checks.antt =====
-- Runs on concrete inputs, and the theorems at inputs where their hypotheses hold.
mod Tls
mod Text
mod Runtime
mod Launch
mod Process
mod Async
mod Options
mod Clients
mod Construct
pub mod Transport
mod Managed
mod ManagedAsync
