-- ===== src/Server.antt =====
-- server-cpp: the state of the server, its effects, and the handlers of the requests.
pub mod Protocol
pub mod Data
pub mod Database
pub mod Postgres
pub mod Start
pub mod World
pub mod Frame
pub mod Delivery
pub mod Handlers
pub mod Session
pub mod People
pub mod Friendship
pub mod Interleaving
pub mod Roles
pub mod Accounts
pub mod Messaging
