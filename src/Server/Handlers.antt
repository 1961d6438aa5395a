-- ===== src/Server/Handlers.antt =====
-- server-cpp/src/message_handler.cpp: a function for each case of the switch of `handle_client`.
-- A handler runs on its own from its first step to its last. It returns the session's user after it.
pub mod Names
pub mod Account
pub mod Lookup
pub mod Friends
pub mod Messages
pub mod Groups
