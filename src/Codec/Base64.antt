-- ===== src/Codec/Base64.antt =====
-- server-cpp/src/utils.cpp: `base64_encode`. `valb` of the source is `bits - 6`; `val` is an `int`,
-- of which only low bits are read.
pub mod Shape
use mobile_chatting_app.Common.{
  ℕ, zero, suc, ◌+◌, ◌-◌, ◌*◌, ◌/◌, ◌%◌, ◌^◌, [], ◌∷◌, ◌++◌, ltb, leb, if◌then◌else◌, length,
  get_or, replicate,
}
use mobile_chatting_app.Common.Bytes.{Bytes, codes}

abbrev pub b64_chars : Bytes
b64_chars = codes "ABCDEFGHIJKLMNOPQRSTUVWXYZabcdefghijklmnopqrstuvwxyz0123456789+/"

-- `b64_chars[(v >> k) & 0x3F]`
abbrev pub sextet : ℕ → ℕ → ℕ
sextet v k = get_or b64_chars (v / 2 ^ k % 64) 0

-- `while (valb >= 0) { … valb -= 6; }`: the text it writes and the bits that are left. `fuel` is
-- above the number of rounds.
unfoldable pub drain : ℕ → ℕ → ℕ → Bytes → ℕ × Bytes
drain zero val bits out = (bits, out)
drain (suc fuel) val bits out =
    let rest = drain fuel val (bits - 6) (out ++ (sextet val (bits - 6) ∷ [])) in
    if leb 6 bits then rest else (bits, out)

-- The loop over the bytes, and what follows it but the padding.
unfoldable pub encode_loop : Bytes → ℕ → ℕ → Bytes → Bytes
unfolding drain
encode_loop [] val bits out =
    if ltb 0 bits then out ++ (sextet (val * 2 ^ 8 % 2 ^ 32) (bits + 2) ∷ []) else out
encode_loop (c ∷ s) val bits out =
    let val' = (val * 2 ^ 8 + c) % 2 ^ 32 in
    let (bits', out') = drain 3 val' (bits + 8) out in encode_loop s val' bits' out'

-- `while (out.size() % 4) out.push_back('=');`
unfoldable pub pad : Bytes → Bytes
pad out = out ++ replicate ((4 - length out % 4) % 4) b'='

unfoldable pub base64_encode : Bytes → Bytes
unfolding encode_loop pad
base64_encode s = pad (encode_loop s 0 0 [])
