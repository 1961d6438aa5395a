-- ===== src/Wire/Packet.antt =====
-- Whole messages of the server's `send_message`, as the client finds them in a stream.
use mobile_chatting_app.Common.{
  ℕ, ◌+◌, ◌%◌, ◌^◌, ◌<◌, ◌≡◌, sym, ap, subst, List, [], ◌∷◌, ◌++◌, map, length, length-append, All,
  arith,
}
use mobile_chatting_app.Common.Bytes.{Bytes}
use mobile_chatting_app.Wire.Word.{network_round_trip}
use mobile_chatting_app.Wire.Header.{write_header, length-write_header}
use mobile_chatting_app.Wire.Sending.Packets.{wire}
use mobile_chatting_app.Wire.Stream.{total_size}
use mobile_chatting_app.Wire.Stream.Frames.{IsMessage}

-- What one call of `send_message`, or of the client's `createMessage`, is given, and the time.
pub record Packet : Type 0 where
  pub type : ℕ
  pub payload : Bytes
  pub user_id : ℕ
  pub ts : ℕ

-- Each field has its width, and the size of the whole message is a `uint32_t`.
abbrev pub Fits : Packet → Type 0
Fits p = (length p.payload + 32 < 2 ^ 32) × (p.user_id < 2 ^ 32) × (p.ts < 2 ^ 64)

abbrev pub bytes_of : Packet → Bytes
bytes_of p = wire p.type p.payload p.user_id p.ts

pub small_mod : (n : ℕ) → n + 32 < 2 ^ 32 → n % 2 ^ 32 ≡ n
small_mod n h = omega (arith, h)

total_size-write_header :
    (type len user_id ts : ℕ) (payload : Bytes)
    → len < 2 ^ 32
    → total_size (write_header type len user_id ts ++ payload) ≡ 32 + len
unfolding total_size write_header
total_size-write_header type len user_id ts payload h = omega (arith, network_round_trip len h)

pub bytes_of-eq :
    (p : Packet)
    → Fits p
    → bytes_of p ≡ write_header p.type (length p.payload) p.user_id p.ts ++ p.payload
bytes_of-eq p h =
    ap (λ n. write_header p.type n p.user_id p.ts ++ p.payload) (small_mod (length p.payload) h.0)

bytes_of-IsMessage : (p : Packet) → Fits p → IsMessage (bytes_of p)
bytes_of-IsMessage p h =
    let header = length-write_header p.type (length p.payload) p.user_id p.ts in
    let whole = length-append (write_header p.type (length p.payload) p.user_id p.ts) p.payload in
    let size =
      total_size-write_header p.type (length p.payload) p.user_id p.ts p.payload
        (omega (arith, h.0)) in
    subst IsMessage (sym (bytes_of-eq p h))
      (omega (arith, header, whole), omega (arith, header, whole, size))

pub each-IsMessage : (ps : List Packet) → All Fits ps → All IsMessage (map bytes_of ps)
each-IsMessage [] h = tt
each-IsMessage (p ∷ ps) (h, hs) = (bytes_of-IsMessage p h, each-IsMessage ps hs)
