-- ===== src/Wire/Client.antt =====
-- `ProtocolHandler` (app/src/main/cpp/protocol_handler.cpp) but for its checksum.
pub mod RoundTrip
use mobile_chatting_app.Common.{
  ℕ, ◌*◌, ◌+◌, ◌/◌, ◌%◌, ◌^◌, ◌<◌, ◌≤◌, ◌≡◌, ◌↔◌, refl, Bool, true, false, ltb, ◌==◌, if◌then◌else◌,
  List, [], ◌∷◌, ◌++◌, get_or, replicate, length, take, drop, length-append, not, arith,
}
use mobile_chatting_app.Common.Bytes.{Bytes}
use mobile_chatting_app.Server.Protocol.{magic, version}
use mobile_chatting_app.Wire.Word.{byte, mem32, load32, htonl, network_round_trip}

-- `htonll` and `ntohll` of the client.
unfoldable pub htonll : ℕ → ℕ
htonll value =
    let high = htonl (value / 2 ^ 32) in let low = htonl (value % 2 ^ 32) in low * 2 ^ 32 + high

unfoldable pub ntohll : ℕ → ℕ
ntohll value =
    let high = htonl (value / 2 ^ 32) in let low = htonl (value % 2 ^ 32) in high * 2 ^ 32 + low

-- `memcpy(ptr, &x, 8)` and back.
abbrev pub mem64 : ℕ → Bytes
mem64 x = mem32 (x % 2 ^ 32) ++ mem32 (x / 2 ^ 32)

abbrev pub load64 : Bytes → ℕ → ℕ
load64 buf at = load32 buf at + load32 buf (at + 4) * 2 ^ 32

unfoldable pub create_message : ℕ → Bytes → ℕ → ℕ → Bytes
create_message type payload user_id ts =
    mem32 (htonl magic)
    ++ (version
        ∷ type
        ∷ (mem32 (htonl (length payload % 2 ^ 32))
            ++ (mem64 (htonll ts)
                ++ (mem32 (htonl user_id) ++ (mem32 0 ++ (replicate 6 0 ++ payload))))))

pub record ProtocolHeader : Type 0 where
  pub magic : ℕ
  pub version : ℕ
  pub type : ℕ
  pub length : ℕ
  pub timestamp : ℕ
  pub user_id : ℕ
  pub checksum : ℕ

-- `overread` is a read past the end of the caller's buffer, which C++ leaves undefined.
pub data Parsed : Type 0 where
  rejected : Parsed
  parsed : ProtocolHeader → Bytes → Parsed
  overread : Parsed

unfoldable pub read_fields : Bytes → ProtocolHeader
read_fields buf = record {
  magic = htonl (load32 buf 0);
  version = get_or buf 4 0;
  type = get_or buf 5 0;
  length = htonl (load32 buf 6);
  timestamp = ntohll (load64 buf 10);
  user_id = htonl (load32 buf 18);
  checksum = htonl (load32 buf 22);
}

-- `payload.assign(ptr, payload_length)` at the end of the header.
unfoldable pub read_payload : Bytes → ProtocolHeader → Parsed
read_payload buf h =
    if ltb (length buf) (32 + h.length) then overread else parsed h (take h.length (drop 32 buf))

-- `32 + payload_length` is a `uint32_t` and wraps around.
unfoldable pub parse_message : Bytes → Parsed
parse_message buf =
    if ltb (length buf) 32
    then rejected
    else (let h = read_fields buf in
        if not (h.magic == magic)
        then rejected
        else if not (h.version == version)
        then rejected
        else if ltb (length buf) ((32 + h.length) % 2 ^ 32)
        then rejected
        else read_payload buf h)

unfoldable pub validate_message : Bytes → Bool
unfolding parse_message
validate_message buf = elim (parse_message buf) [ parsed _ _ ↦ true | _ ↦ false ]
