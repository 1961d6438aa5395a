-- ===== src/Tests/Client.antt =====
-- Runs of the client's functions.
use mobile_chatting_app.Common.{
  ℕ, suc, true, false, none, some, ◌≡◌, refl, [], ◌∷◌, lookup, arith, length,
}
use mobile_chatting_app.Common.Bytes.{Bytes, codes, bytes_eq, Lacks}
use mobile_chatting_app.Codec.Kv.{parse_kv}
use Prim.Native.Nat.{bit_xor}
use mobile_chatting_app.Client.Hex.{setw, to_hex}
use mobile_chatting_app.Client.Sha256.{sha256}
use mobile_chatting_app.Client.Sha256.Digest.{length-sha256}
use mobile_chatting_app.Client.Checksum.{calculate_checksum}
use mobile_chatting_app.Client.Checksum.Reference.{crc_bytes, calculate_checksum-crc_bytes}
use mobile_chatting_app.Client.Socket.{Net, SocketManager, send_data}
use mobile_chatting_app.Client.Socket.Sending.{IsLive, IsSentBy, send_data-IsSentBy}
use mobile_chatting_app.Client.Serializer.{deserialize}
use mobile_chatting_app.Client.Serializer.Requests.{serialize_chat_message}
use mobile_chatting_app.Client.Serializer.Agreement.{lookup-deserialize}
use mobile_chatting_app.Client.Serializer.Chat.{IsRead, chat_message-IsRead}
use mobile_chatting_app.Server.Protocol.{success, direct_message}
use mobile_chatting_app.Server.Messaging.{Returns, IsSent, answered}
use mobile_chatting_app.Server.Handlers.Messages.{handle_direct_message}
use mobile_chatting_app.Tests.Data.{counter, with_db, by_ann}

-- The digest of FIPS 180-4's first example.
sha256_abc :
    sha256 (codes "abc") ≡ codes "ba7816bf8f01cfea414140de5dae2223b00361a396177a9cb410ff61f20015ad"
unfolding sha256 setw to_hex
sha256_abc = refl

-- The check value of CRC-32.
checksum_digits : calculate_checksum (codes "123456789") ≡ 0xCBF43926
unfolding calculate_checksum
checksum_digits = refl

length-sha256_example : length (sha256 (codes "abc")) ≡ 64
length-sha256_example = length-sha256 (codes "abc")

calculate_checksum-crc_bytes_example :
    calculate_checksum (0xFF ∷ 0 ∷ []) ≡ bit_xor (crc_bytes 0xFFFFFFFF (0xFF ∷ 0 ∷ [])) 0xFFFFFFFF
calculate_checksum-crc_bytes_example =
    calculate_checksum-crc_bytes (0xFF ∷ 0 ∷ []) (omega arith, (omega arith, tt))

lookup-deserialize_example :
    lookup (codes "a") (deserialize (codes "b=1&a=2&a=3&x"))
    ≡ lookup (codes "a") (parse_kv (codes "b=1&a=2&a=3&x"))
lookup-deserialize_example = lookup-deserialize (codes "b=1&a=2&a=3&x") (codes "a")

hi_Lacks : Lacks b'&' (codes "hi")
hi_Lacks = (omega arith, (omega arith, tt))

chat_message-IsRead_example :
    Returns
      (handle_direct_message counter by_ann (serialize_chat_message 2 (codes "hi")) with_db)
      (λ uid w'.
        (payload : Bytes) × IsSent by_ann
          (2 ∷ [])
          direct_message
          payload
          (answered by_ann success (codes "Message sent"))
          with_db
          w'
        × IsRead 1 (codes "hi") 100 payload)
chat_message-IsRead_example =
    chat_message-IsRead counter by_ann 2 (codes "hi") with_db (omega arith) (omega arith)
      (omega arith) hi_Lacks

-- A kernel that takes one byte at a time.
abbrev pub slow_net : Net ℕ
slow_net = record {
  socket = λ n. (some 3, n);
  inet_pton = λ host. true;
  connect = λ fd host port n. (true, n);
  close = λ fd n. n;
  send = λ fd text n. (some 1, suc n);
  recv = λ fd n s. (none, s);
}

slow_net-IsLive : IsLive slow_net
slow_net-IsLive fd text n k e = ground (arith, e)

abbrev pub online : SocketManager ℕ
online = record {
  sockfd = some 3;
  connected = true;
  receiving = false;
  joinable = false;
  looping = false;
  buffered = [];
  net = 0;
  accepted = [];
}

send_data-IsSentBy_example :
    IsSentBy (codes "hey") online (send_data slow_net 3 (codes "hey") online)
send_data-IsSentBy_example =
    send_data-IsSentBy slow_net slow_net-IsLive (codes "hey") 3 online refl refl
