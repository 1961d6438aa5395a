-- ===== src/Wire/TestClient.antt =====
-- server-cpp/tools/test_client.cpp: what the tool sends and reads, and its loop.
pub mod Dialogue
use mobile_chatting_app.Common.{
  ℕ, ◌^◌, ◌%◌, Bool, true, false, not, List, [], ◌∷◌, Option, none, some, ◌==◌, if◌then◌else◌,
  get_or, length,
}
use mobile_chatting_app.Common.Bytes.{Bytes, is_empty}
use mobile_chatting_app.Server.Protocol.{get_user_groups}
use mobile_chatting_app.Wire.Word.{load32, htonl}
use mobile_chatting_app.Wire.Header.{write_header}
use mobile_chatting_app.Wire.Stream.{recv_all}
use mobile_chatting_app.Wire.Sending.{Kernel, Output, send_all}

-- The type and the payload of an answer, and the pieces not yet read.
unfoldable pub recv_response : List Bytes → Option (ℕ × Bytes × List Bytes)
recv_response pieces = elim (recv_all 32 pieces) [
  | none ↦ none
  | some (header, rest) ↦
      let len = htonl (load32 header 6) in
      if len == 0 then some (get_or header 5 0, [], rest) else elim (recv_all len rest) [
        | none ↦ none
        | some (payload, left) ↦ some (get_or header 5 0, payload, left)
      ]
]

module _ {K : Type 0} (send : Kernel K) where
  -- `ts` is the clock of `write_header`.
  unfoldable pub send_header_and_payload :
      ℕ → ℕ → Bytes → ℕ → ℕ → Output K → Option (Bool × Output K)
  unfolding send_all
  send_header_and_payload fd type payload user_id ts o =
      elim (send_all send fd (write_header type (length payload % 2 ^ 32) user_id ts) o) [
        | none ↦ none
        | some (sent, o1) ↦
            if not sent
            then some (false, o1)
            else if not (is_empty payload)
            then send_all send fd payload o1
            else some (true, o1)
      ]

  -- The loop of `main` over the numbers that are entered, each with the time of its request: the
  -- answers that it prints. The outer `none` is the end of the fuel of `send_all`.
  unfoldable pub answers :
      ℕ → List (ℕ × ℕ) → List Bytes → Output K → Option (List (ℕ × Bytes) × Output K)
  unfolding send_header_and_payload recv_response
  answers fd [] pieces o = some ([], o)
  answers fd ((user_id, ts) ∷ entered) pieces o =
      if user_id == 0
      then some ([], o)
      else elim (send_header_and_payload fd get_user_groups [] user_id ts o) [
        | none ↦ none
        | some (sent, o1) ↦ if not sent then some ([], o1) else elim (recv_response pieces) [
          | none ↦ some ([], o1)
          | some (type, payload, left) ↦ elim (answers fd entered left o1) [
            | none ↦ none
            | some (printed, o2) ↦ some ((type, payload) ∷ printed, o2)
          ]
        ]
      ]
