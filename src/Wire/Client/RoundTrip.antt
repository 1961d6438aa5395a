-- ===== src/Wire/Client/RoundTrip.antt =====
-- What the client's parser does with the messages that the client and the server make.
use mobile_chatting_app.Common.{
  ℕ, ◌*◌, ◌+◌, ◌/◌, ◌%◌, ◌^◌, ◌<◌, ◌≤◌, ◌≡◌, ◌↔◌, ◌∙◌, ap, refl, [], ◌∷◌, ◌++◌, length, take, drop,
  length-append, arith,
}
use mobile_chatting_app.Common.Bytes.{Bytes}
use mobile_chatting_app.Server.Protocol.{magic, version}
use mobile_chatting_app.Wire.Word.{
  load32, htonl, network_round_trip, mem32_sum, htonl-lt, htonl-htonl,
}
use mobile_chatting_app.Wire.Header.{write_header, length-write_header}
use mobile_chatting_app.Wire.Client.{
  htonll, ntohll, mem64, load64, create_message, ProtocolHeader, parsed, overread, read_fields,
  read_payload, parse_message,
}

-- The two halves of a 64-bit word exchanged.
abbrev pub swap_halves : ℕ → ℕ
swap_halves t = t % 2 ^ 32 * 2 ^ 32 + t / 2 ^ 32

pub htonll_high : (t : ℕ) → htonll t / 2 ^ 32 ≡ htonl (t % 2 ^ 32)
unfolding htonll
htonll_high t = omega (arith, htonl-lt (t / 2 ^ 32))

pub htonll_low : (t : ℕ) → htonll t % 2 ^ 32 ≡ htonl (t / 2 ^ 32)
unfolding htonll
htonll_low t = omega (arith, htonl-lt (t / 2 ^ 32))

pub htonll-lt : (t : ℕ) → htonll t < 2 ^ 64
unfolding htonll
htonll-lt t = omega (arith, htonl-lt (t / 2 ^ 32), htonl-lt (t % 2 ^ 32))

-- `ntohll` undoes only the order of the bytes inside the halves.
ntohll-htonll : (t : ℕ) → t < 2 ^ 64 → ntohll (htonll t) ≡ swap_halves t
unfolding ntohll
ntohll-htonll t h = omega (
  arith,
  htonl-lt (t / 2 ^ 32),
  htonl-lt (t % 2 ^ 32),
  ap htonl (htonll_high t),
  ap htonl (htonll_low t),
  htonl-htonl (t / 2 ^ 32),
  htonl-htonl (t % 2 ^ 32),
)

length-create_message :
    (type : ℕ) (payload : Bytes) (user_id ts : ℕ)
    → length (create_message type payload user_id ts) ≡ 32 + length payload
unfolding create_message
length-create_message type payload user_id ts = omega arith

load64-mem64 : (v : ℕ) → v < 2 ^ 64 → load64 (mem64 v) 0 ≡ v
load64-mem64 v h = omega (arith, mem32_sum (v % 2 ^ 32), mem32_sum (v / 2 ^ 32))

abbrev header_of : ℕ → ℕ → ℕ → ℕ → ProtocolHeader
header_of type len user_id ts = record {
  magic = magic;
  version = version;
  type = type;
  length = len;
  timestamp = swap_halves ts;
  user_id = user_id;
  checksum = 0;
}

pub htonl-zero : htonl 0 ≡ 0
unfolding htonl
htonl-zero = refl

read_fields-create_message :
    (type : ℕ) (payload : Bytes) (user_id ts : ℕ)
    → length payload < 2 ^ 32
    → user_id < 2 ^ 32
    → ts < 2 ^ 64
    → read_fields (create_message type payload user_id ts)
      ≡ header_of type (length payload) user_id ts
unfolding read_fields create_message
read_fields-create_message type payload user_id ts hp hu ht = ground (
  arith,
  network_round_trip magic,
  network_round_trip (length payload % 2 ^ 32),
  network_round_trip user_id,
  ap ntohll (load64-mem64 (htonll ts) (htonll-lt ts)),
  ntohll-htonll ts ht,
  htonl-zero,
)

take_all : (s : Bytes) → take (length s) s ≡ s
take_all [] = refl
take_all (c ∷ s) = ap (λ t. c ∷ t) (take_all s)

drop-create_message :
    (type : ℕ) (payload : Bytes) (user_id ts : ℕ)
    → drop 32 (create_message type payload user_id ts) ≡ payload
unfolding create_message
drop-create_message type payload user_id ts = refl

-- A buffer whose header fits it is taken.
parse_message_complete :
    (buf : Bytes) (h : ProtocolHeader)
    → read_fields buf ≡ h
    → h.magic ≡ magic
    → h.version ≡ version
    → 32 + h.length < 2 ^ 32
    → 32 + h.length ≤ length buf
    → parse_message buf ≡ parsed h (take h.length (drop 32 buf))
unfolding parse_message read_payload
parse_message_complete buf h e hm hv hw hl = rw e (ground arith)

-- The client's parser takes back each message that the client makes, with its payload and its
-- fields, but for the timestamp: its two halves come back exchanged; if the size of the message and
-- each field fit their widths.
pub parse_message-create_message :
    (type : ℕ) (payload : Bytes) (user_id ts : ℕ)
    → length payload + 32 < 2 ^ 32
    → user_id < 2 ^ 32
    → ts < 2 ^ 64
    → parse_message (create_message type payload user_id ts)
      ≡ parsed
          (record {
            magic = magic;
            version = version;
            type = type;
            length = length payload;
            timestamp = swap_halves ts;
            user_id = user_id;
            checksum = 0;
          })
          payload
parse_message-create_message type payload user_id ts hp hu ht =
    parse_message_complete (create_message type payload user_id ts)
      (header_of type (length payload) user_id ts)
      (read_fields-create_message type payload user_id ts (omega arith) hu ht) refl refl
      (omega arith) (omega (arith, length-create_message type payload user_id ts))
    ∙ rw (drop-create_message type payload user_id ts, take_all payload)

read_fields-write_header :
    (type : ℕ) (payload : Bytes) (user_id ts : ℕ)
    → length payload < 2 ^ 32
    → user_id < 2 ^ 32
    → ts < 2 ^ 64
    → read_fields (write_header type (length payload) user_id ts ++ payload)
      ≡ header_of type (length payload) user_id ts
unfolding read_fields write_header ntohll
read_fields-write_header type payload user_id ts hp hu ht = ground (
  arith,
  network_round_trip magic,
  network_round_trip (length payload),
  network_round_trip user_id,
  mem32_sum (htonl (ts / 2 ^ 32)) (htonl-lt (ts / 2 ^ 32)),
  mem32_sum (htonl (ts % 2 ^ 32)) (htonl-lt (ts % 2 ^ 32)),
  htonl-htonl (ts / 2 ^ 32),
  htonl-htonl (ts % 2 ^ 32),
  htonl-zero,
)

drop-write_header :
    (type : ℕ) (payload : Bytes) (user_id ts : ℕ)
    → drop 32 (write_header type (length payload) user_id ts ++ payload) ≡ payload
unfolding write_header
drop-write_header type payload user_id ts = refl

-- A message with the header of the server's `write_header` reaches the client with its payload and
-- its fields, but for the timestamp: its two halves come back exchanged; if the size of the message and
-- each field fit their widths.
pub parse_message-write_header :
    (type : ℕ) (payload : Bytes) (user_id ts : ℕ)
    → length payload + 32 < 2 ^ 32
    → user_id < 2 ^ 32
    → ts < 2 ^ 64
    → parse_message (write_header type (length payload) user_id ts ++ payload)
      ≡ parsed
          (record {
            magic = magic;
            version = version;
            type = type;
            length = length payload;
            timestamp = swap_halves ts;
            user_id = user_id;
            checksum = 0;
          })
          payload
parse_message-write_header type payload user_id ts hp hu ht =
    parse_message_complete (write_header type (length payload) user_id ts ++ payload)
      (header_of type (length payload) user_id ts)
      (read_fields-write_header type payload user_id ts (omega arith) hu ht) refl refl (omega arith)
      (omega (
        arith,
        length-append (write_header type (length payload) user_id ts) payload,
        length-write_header type (length payload) user_id ts,
      ))
    ∙ rw (drop-write_header type payload user_id ts, take_all payload)

read_fields_length-lt : (buf : Bytes) → (read_fields buf).length < 2 ^ 32
unfolding read_fields
read_fields_length-lt buf = htonl-lt (load32 buf 6)

-- A buffer with the right magic number and version is read past its end exactly when the length in
-- its header is so large that the sum with the header's size wraps around.
pub parse_message-eq-overread :
    (buf : Bytes)
    → 32 ≤ length buf
    → length buf < 2 ^ 32
    → (read_fields buf).magic ≡ magic
    → (read_fields buf).version ≡ version
    → (parse_message buf ≡ overread) ↔ (2 ^ 32 ≤ 32 + (read_fields buf).length)
unfolding parse_message read_payload
parse_message-eq-overread buf hl hs hm hv = ground (arith, read_fields_length-lt buf)
