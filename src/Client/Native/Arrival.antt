-- ===== src/Client/Native/Arrival.antt =====
-- From the server's `send_message` to `onMessageReceived` of the Java object: the bytes on the wire,
-- the loop over the buffer of the socket manager, and `on_data_received`.
use mobile_chatting_app.Common.{
  ℕ, ◌≡◌, sym, ap, ◌∙◌, true, List, [], ◌∷◌, ◌++◌, append_assoc, append-nil, map, some, All, arith,
}
use mobile_chatting_app.Common.Bytes.{Bytes, c_str}
use mobile_chatting_app.Wire.Packet.{Packet, Fits, bytes_of, bytes_of-eq, each-IsMessage}
use mobile_chatting_app.Wire.Client.{parsed, parse_message, ProtocolHeader}
use mobile_chatting_app.Wire.Client.RoundTrip.{parse_message-write_header}
use mobile_chatting_app.Wire.Stream.{receive_loop}
use mobile_chatting_app.Wire.Stream.Frames.{flat, receive_loop-flat}
use mobile_chatting_app.Client.Socket.{Net}
use mobile_chatting_app.Client.Native.{
  Globals, Jstring, string_to_jstring, on_data_received, on_messages,
}
use mobile_chatting_app.Client.Native.Strings.{is_modified_utf8, IsNewString}

abbrev pub delivery : Packet → ℕ × Jstring
delivery p = (p.type, some (c_str p.payload))

-- The payload up to its first zero byte is modified UTF-8.
abbrev pub IsText : Packet → Type 0
IsText p = is_modified_utf8 (c_str p.payload) ≡ true

module _ {G S : Type 0} (draw : G → ℕ × G) (sys : Net S) (new_string_utf : Bytes → Jstring)
    (new_string : IsNewString new_string_utf) where
  -- A parsed message is delivered to an object that has the method.
  delivered_one :
      (message : Bytes) (header : ProtocolHeader) (payload : Bytes) (object : ℕ) (n : Globals G S)
      → parse_message message ≡ parsed header payload
      → is_modified_utf8 (c_str payload) ≡ true
      → n.jvm ≡ true
      → n.callback_object ≡ some object
      → n.protocol_handler ≡ true
      → on_data_received draw sys new_string_utf true message n
        ≡ some (record n { delivered = n.delivered ++ ((header.type, some (c_str payload)) ∷ []) })
  unfolding on_data_received string_to_jstring
  delivered_one message header payload object n e m j c h =
      ground (arith, new_string (c_str payload) m)

  on_messages-bytes_of :
      (ps : List Packet) (object : ℕ) (n : Globals G S)
      → All Fits ps
      → All IsText ps
      → n.jvm ≡ true
      → n.callback_object ≡ some object
      → n.protocol_handler ≡ true
      → on_messages draw sys new_string_utf true (map bytes_of ps) n
        ≡ some (record n { delivered = n.delivered ++ map delivery ps })
  unfolding on_messages
  on_messages-bytes_of [] object n hs ms j c h =
      ap (λ d. some (record n { delivered = d })) (sym (append-nil n.delivered))
  on_messages-bytes_of (p ∷ ps) object n (hp, hs) (m, ms) j c h =
      let n1 : Globals G S = record n { delivered = n.delivered ++ (delivery p ∷ []) } in
      let read =
        ap parse_message (bytes_of-eq p hp)
        ∙ parse_message-write_header p.type p.payload p.user_id p.ts hp.0 hp.1 hp.2 in
      let more = on_messages-bytes_of ps object n1 hs ms j c h in
      rw (on_messages, delivered_one (bytes_of p) _ p.payload object n read m j c h) more
      ∙ ap (λ d. some (record n { delivered = d }))
          (append_assoc n.delivered (delivery p ∷ []) (map delivery ps))

  -- Once the library is loaded, initialized and has a callback object with the method, this object
  -- gets each message that the server sent, once and in their order, with its type and its payload
  -- up to the first zero byte, however the network cuts the bytes into pieces, if each field of a
  -- message fits its width, if each payload up to that byte is modified UTF-8, and if `NewStringUTF`
  -- makes the string that such bytes write.
  pub on_messages-receive_loop :
      (ps : List Packet) (pieces : List Bytes) (object : ℕ) (n : Globals G S)
      → All Fits ps
      → All IsText ps
      → flat pieces ≡ flat (map bytes_of ps)
      → n.jvm ≡ true
      → n.callback_object ≡ some object
      → n.protocol_handler ≡ true
      → on_messages draw sys new_string_utf true (receive_loop pieces []).0 n
        ≡ some (record n { delivered = n.delivered ++ map delivery ps })
  on_messages-receive_loop ps pieces object n hs ms e j c h =
      ap (λ r. on_messages draw sys new_string_utf true r.0 n)
        (receive_loop-flat (map bytes_of ps) pieces (each-IsMessage ps hs) e)
      ∙ on_messages-bytes_of ps object n hs ms j c h
