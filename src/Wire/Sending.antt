-- ===== src/Wire/Sending.antt =====
-- server-cpp/src/network_utils.cpp: `send_all` and `send_message`, byte by byte.
pub mod Packets
use mobile_chatting_app.Common.{
  ℕ, zero, suc, ◌^◌, ◌%◌, Bool, true, false, List, [], ◌∷◌, ◌++◌, Option, none, some, if◌then◌else◌,
  length, take, drop,
}
use mobile_chatting_app.Common.Bytes.{Bytes, is_empty}
use mobile_chatting_app.Wire.Header.{write_header}

-- `::send` of a kernel with the state `K`; `none` is a negative result.
abbrev pub Kernel : Type 0 → Type 0
Kernel K = ℕ → Bytes → K → Option ℕ × K

-- The kernel, and the bytes that it has taken so far, which no code reads.
pub record Output (K : Type 0) : Type 0 where
  pub kernel : K
  pub taken : Bytes

module _ {K : Type 0} (send : Kernel K) where
  -- The outer `none` is the end of the fuel.
  unfoldable pub send_loop : ℕ → ℕ → Bytes → Output K → Option (Bool × Output K)
  send_loop fuel fd [] o = some (true, o)
  send_loop zero fd (c ∷ buf) o = none
  send_loop (suc f) fd (c ∷ buf) o =
      let (sent, k1) = send fd (c ∷ buf) o.kernel in
      elim sent [
        | none ↦ some (false, record o { kernel = k1 })
        | some zero ↦ some (false, record o { kernel = k1 })
        | some (suc n) ↦
            send_loop f fd (drop n buf)
              (record { kernel = k1; taken = o.taken ++ (c ∷ take n buf) })
      ]

  -- As many rounds as bytes are enough.
  unfoldable pub send_all : ℕ → Bytes → Output K → Option (Bool × Output K)
  unfolding send_loop
  send_all fd buf o = send_loop (length buf) fd buf o

  -- `ts` is the value of `time(nullptr)`.
  unfoldable pub send_message : ℕ → ℕ → Bytes → ℕ → ℕ → Output K → Option (Bool × Output K)
  unfolding send_all
  send_message fd type payload user_id ts o =
      elim (send_all fd (write_header type (length payload % 2 ^ 32) user_id ts) o) [
        | none ↦ none
        | some (sent, o1) ↦
            if sent
            then if is_empty payload then some (true, o1) else send_all fd payload o1
            else some (false, o1)
      ]
