-- ===== src/Tests.antt =====
-- Runs of the models at concrete inputs.
pub mod Data
mod Wire
mod Server
mod Runs
mod Client
mod Start
mod Native
mod Postgres
