-- ===== src/Wire/Header.antt =====
-- `write_header` (server-cpp/src/network_utils.cpp) and the header that `handle_client`
-- (server-cpp/src/message_handler.cpp) reads.
use mobile_chatting_app.Common.{
  ℕ, ◌*◌, ◌+◌, ◌/◌, ◌%◌, ◌^◌, ◌<◌, ◌≡◌, refl, ◌∷◌, ◌++◌, get_or, replicate, length, arith,
}
use mobile_chatting_app.Common.Bytes.{Bytes}
use mobile_chatting_app.Server.Protocol.{magic, version}
use mobile_chatting_app.Wire.Word.{mem32, load32, htonl, network_round_trip}

-- `ts` is the value of `time(nullptr)`. The memory is zero where nothing is written.
unfoldable pub write_header : ℕ → ℕ → ℕ → ℕ → Bytes
write_header type len user_id ts =
    mem32 (htonl magic)
    ++ (version
        ∷ type
        ∷ (mem32 (htonl len)
            ++ (mem32 (htonl (ts / 2 ^ 32))
                ++ (mem32 (htonl (ts % 2 ^ 32))
                    ++ (mem32 (htonl user_id) ++ (mem32 (htonl 0) ++ replicate 6 0))))))

-- The local variables of `handle_client` after "Parse header".
pub record Header : Type 0 where
  pub magic : ℕ
  pub version : ℕ
  pub type : ℕ
  pub length : ℕ
  pub ts : ℕ
  pub sender_user_id : ℕ
  pub checksum : ℕ

unfoldable pub read_header : Bytes → Header
read_header buf = record {
  magic = htonl (load32 buf 0);
  version = get_or buf 4 0;
  type = get_or buf 5 0;
  length = htonl (load32 buf 6);
  ts = htonl (load32 buf 10) * 2 ^ 32 + htonl (load32 buf 14);
  sender_user_id = htonl (load32 buf 18);
  checksum = htonl (load32 buf 22);
}

pub length-write_header : (type len user_id ts : ℕ) → length (write_header type len user_id ts) ≡ 32
unfolding write_header
length-write_header type len user_id ts = refl

-- The header that the server writes is the header that its reader reads: every field comes back,
-- if each fits its width.
pub read_header-write_header :
    (type len user_id ts : ℕ)
    → len < 2 ^ 32
    → user_id < 2 ^ 32
    → ts < 2 ^ 64
    → read_header (write_header type len user_id ts) ≡ record {
      magic = magic;
      version = version;
      type = type;
      length = len;
      ts = ts;
      sender_user_id = user_id;
      checksum = 0;
    }
unfolding write_header read_header
read_header-write_header type len user_id ts hl hu ht = ground (
  arith,
  network_round_trip magic,
  network_round_trip len,
  network_round_trip user_id,
  network_round_trip (ts / 2 ^ 32),
  network_round_trip (ts % 2 ^ 32),
  network_round_trip 0,
)
