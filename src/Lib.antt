-- ===== src/Lib.antt =====
-- A model of the chat program: the server (server-cpp/) and the C++ part of the Android client
-- (app/src/main/cpp/), with the theorems about them.
--
-- The server runs `handle_client` for each connection. It reads a header of 32 bytes and a payload
-- of `key=value` pairs, answers by the type of the request, and sends notices to the connections of
-- other users; the globals of namespace `server_state` are shared by all connections. The client
-- frames and parses the same messages.
--
-- Common: Boolean tests, lists, maps as association lists, decimal numbers (std::stoi,
-- std::to_string), bytes, and the laws of `^` and `|`.
-- Codec: `parse_kv`, `serialize_kv` and `base64_encode` (server-cpp/src/utils.cpp).
-- Wire: the words of a header in network byte order, `write_header` and `recv_all`
-- (server-cpp/src/network_utils.cpp), the reader of headers in `handle_client`, `ProtocolHandler`
-- (app/src/main/cpp/protocol_handler.cpp) and the loop of `SocketManager::receiveLoop`
-- (app/src/main/cpp/socket_manager.cpp). Wire.Sending: `send_all` and `send_message`
-- (server-cpp/src/network_utils.cpp) byte by byte, over the kernel's `send` as the parameter `Kernel`.
-- Wire.Packet: the messages of `send_message` as a stream. Wire.TestClient: the requests and the loop of
-- server-cpp/tools/test_client.cpp.
-- Client: the rest of the client's C++ (app/src/main/cpp/): `sha256` and the cipher of `CryptoUtils`
-- (crypto_utils.cpp), `calculateChecksum` (protocol_handler.cpp) and `MessageSerializer`
-- (message_serializer.cpp): its pairs, its requests, what it reads of the answers, and its binary
-- helpers, and the connection of `SocketManager` (socket_manager.cpp) over the system calls, the
-- parameter `Net`. The random bytes are drawn from a parameter. Client.Socket.Threads: calls of an object
-- and rounds of its receiving thread, in any order.
-- Client.Native: the functions that Kotlin calls and the callback into Java (native-lib.cpp) on the
-- global objects. A `jstring` is its bytes; whether the callback object has its method is the parameter
-- `has_method`, and an exception that it throws is cleared. `NewStringUTF` is the parameter
-- `new_string_utf`; that it makes the string which modified UTF-8 writes, and nothing of other bytes, is
-- the hypothesis `IsNewString` of Client.Native.Strings.
-- Server.Protocol, Server.Data: the constants and the records of server-cpp/include.
-- Server.Database: the calls of `PostgresPersistence` (server-cpp/src/persistence_pg.h) as a record
-- of functions on an abstract state. Its calls always return, so that no conversion throws is assumed of
-- them; of what they return nothing is assumed. Where the columns have their types the conversions of
-- the source do not throw (Server.Postgres.Columns.Readers).
-- Server.Postgres: `PostgresConnection` and the methods of `PostgresPersistence`
-- (server-cpp/src/persistence_pg.cpp), statement by statement. libpq is the parameter `Libpq`, functions
-- on the state of a connection. A theorem may assume that a connection stays open, that ROLLBACK
-- succeeds, or (`IsTyped` of Server.Postgres.Columns.Readers) that the rows of each query have columns of
-- the types of database/migrations/001_create_schema.sql, which the conversions of the source take.
-- `executed` is a record of the statements for the theorems only. Server.Postgres.Store gives the methods
-- as a `Database`.
-- Server.Start: server-cpp/src/main.cpp up to the socket, and `load_users`
-- (server-cpp/src/persistence.cpp). Server.Start.Friends goes from there to the runs of the server.
-- Server.World: the globals, the database, the file of users (`file_opens`: whether it can be written), the
-- messages sent and the calls of `logger::log_activity` (server-cpp/src/logger.cpp), and the monad of the
-- handlers. A fault is an exception that nothing catches or a call through a null pointer.
-- Server.Delivery: sending to a list of users (server-cpp/src/server_state.cpp and the loops of
-- message_handler.cpp).
-- Server.Handlers: one function for each case of the switch of `handle_client`
-- (server-cpp/src/message_handler.cpp): Account, Lookup, Friends, Messages and Groups.
-- Server.Session: the switch and the loop of `handle_client`. Its child Requests has `outcome`, the loop as a
-- list of requests without bytes, which is no code of the source.
-- Server.Messaging, Server.Accounts, Server.Roles, Server.People, Server.Friendship: theorems about
-- the handlers. Server.Interleaving: runs of any connections, one request or one end of a session
-- at a time.
-- Tests: runs at concrete inputs.
--
-- The calls of `SocketManager` from outside come one at a time, each one step, and so does a round
-- of its thread. `startReceiveLoop` and `stopReceiveLoop` take no lock; `clear_receiving` and
-- `join_thread` are the two halves of the latter, between which the thread takes rounds and another
-- call may come.
--
-- An `int` is its 32-bit pattern. A `size_t` is that of the 64-bit processors; the application is
-- also built for processors with 32 bits, where `total_size` would wrap around. A map keeps its keys
-- in the order of insertion, where the source leaves the order of a hash table open. A handler runs
-- as one step: its locks and the interleaving within handlers are not modelled. The loop of a
-- session runs on fuel, and more rounds than bytes are enough; the loop over the client's buffer has
-- one round for each byte, and each round that takes a message takes 32 bytes. The loop that pads a
-- message for SHA-256 has 64 rounds and needs fewer. `send_all` runs on as many rounds as the text
-- has bytes; each round that goes on sends at least one.
--
-- Not modelled: what a statement of SQL does to the tables, and libpq itself; the sockets and
-- threads of main.cpp; the clock; the text and the time of the lines of server-cpp/src/logger.cpp;
-- the Java virtual machine and the Kotlin code; how server-cpp/tools/test_client.cpp connects.
pub mod Common
pub mod Codec
pub mod Wire
pub mod Client
pub mod Server
pub mod Tests
