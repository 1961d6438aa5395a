-- ===== src/Wire/Stream.antt =====
-- Byte streams that arrive in pieces: `recv_all` (server-cpp/src/network_utils.cpp) and the loop
-- over the message buffer of `SocketManager::receiveLoop` (app/src/main/cpp/socket_manager.cpp).
pub mod Frames
pub mod Receive
use mobile_chatting_app.Common.{
  ℕ, zero, suc, ◌+◌, ◌-◌, ◌%◌, ◌^◌, Bool, ◌&&◌, List, [], ◌∷◌, ◌++◌, Option, none, some, leb, ltb,
  ◌==◌, if◌then◌else◌, length, take, drop,
}
use mobile_chatting_app.Common.Bytes.{Bytes, is_empty}
use mobile_chatting_app.Wire.Word.{byte, load32, htonl}

-- The size of the message at the front of the buffer, by the length field of its header, in a `size_t`
-- of the 64-bit processors.
unfoldable pub total_size : Bytes → ℕ
total_size buf = (32 + htonl (load32 buf 6)) % 2 ^ 64

-- The buffer holds a whole message.
abbrev pub is_complete : Bytes → Bool
is_complete buf = leb 32 (length buf) && leb (total_size buf) (length buf)

-- "Process all complete messages in buffer": the messages handed to the callback, and the rest.
-- `fuel` bounds the rounds, each of which takes 32 bytes at least.
unfoldable pub extract : ℕ → Bytes → List Bytes × Bytes
extract zero buf = ([], buf)
extract (suc fuel) buf =
    let rest = extract fuel (drop (total_size buf) buf) in
    if is_complete buf then (take (total_size buf) buf ∷ rest.0, rest.1) else ([], buf)

-- What the callback gets from the pieces that `recv` returns, and the buffer behind them.
unfoldable pub receive_loop : List Bytes → Bytes → List Bytes × Bytes
unfolding extract
receive_loop [] buf = ([], buf)
receive_loop (piece ∷ pieces) buf =
    let got = extract (length (buf ++ piece)) (buf ++ piece) in
    let rest = receive_loop pieces got.1 in (got.0 ++ rest.0, rest.1)

-- `recv_all` on pieces as they arrive: `::recv` returns the next piece, or the part of it that was
-- asked for. An empty piece, or none, is the end of the connection. The result is the bytes and
-- the pieces not yet read.
unfoldable pub recv_all : ℕ → List Bytes → Option (Bytes × List Bytes)
recv_all n [] = if n == 0 then some ([], []) else none
recv_all n (piece ∷ pieces) =
    let rest = recv_all (n - length piece) pieces in
    if n == 0
    then some ([], piece ∷ pieces)
    else if is_empty piece
    then none
    else if ltb n (length piece)
    then some (take n piece, drop n piece ∷ pieces)
    else elim rest [ none ↦ none | some (got, left) ↦ some (piece ++ got, left) ]
