-- ===== src/Tests/Messages.antt =====
-- The theorems on messages at concrete inputs.
use mathlib.Core.Sum.{inl-ne-inr, inr-injective}
use cyc_flow.Base.{
  ◌≤◌, ◌≡◌, refl, ap, sym, ◌∙◌, Bool, Bool-cases, ltb_false→le, le→ltb_false, ◌⊎◌, inl, inr, ltb,
  false, if◌then◌else◌, none, List, [], ◌∷◌, ◌++◌, length, take, drop, length-take, arith,
}
use cyc_flow.Chunk.{Byte}
use cyc_flow.Cbf.{value_of}
use cyc_flow.Tcp.{
  MessageType, type_code, magic, max_control_payload_size, ErrorCode, Asio, message, message_header,
  send_message, receive_message, receive_after, receive_payload, tcp_header_of,
}
use cyc_flow.Tcp.Message.{all_bytes, IsStream, receive_message-send_message}
use cyc_flow.Tcp.Accept.{ReadsWhole, receive_message-bounded}

-- A socket of the bytes it has sent and the bytes that have arrived.
abbrev Pipe : Type 0
Pipe = List Byte × List Byte

abbrev pipe : Asio Pipe
pipe = record {
  read = λ n (sent, arrived).
      if ltb (length arrived) n
      then (inl (ErrorCode.failed 2), (sent, arrived))
      else (inr (take n arrived), (sent, drop n arrived));
  write = λ buffers (sent, arrived). (none, (sent ++ all_bytes buffers, arrived));
}

pipe-IsStream : IsStream pipe (λ s. s.0) (λ s. s.1)
pipe-IsStream = record {
  writes = λ buffers socket done. refl;
  reads = λ n socket enough.
      rw (le→ltb_false (length socket.1) n enough) ((socket.0, drop n socket.1), refl, refl);
}

pipe-ReadsWhole : ReadsWhole pipe
pipe-ReadsWhole n socket bytes e = elim (Bool-cases (ltb (length socket.1) n)) [
  | inl short ↦ absurd (inl-ne-inr (sym (ap (got socket) short) ∙ e))
  | inr enough ↦
      ap (λ xs. length xs)
        (sym (inr-injective (take n socket.1) bytes (sym (ap (got socket) enough) ∙ e)))
      ∙ filled enough
]
  where
    answer : Pipe → Bool → (ErrorCode ⊎ List Byte) × Pipe
    answer socket short =
        if short
        then (inl (ErrorCode.failed 2), (socket.0, socket.1))
        else (inr (take n socket.1), (socket.0, drop n socket.1))

    got : Pipe → Bool → ErrorCode ⊎ List Byte
    got socket short = (answer socket short).0

    filled : ltb (length socket.1) n ≡ false → length (take n socket.1) ≡ n
    filled enough = omega (arith, length-take n socket.1, ltb_false→le (length socket.1) n enough)

abbrev sender : Pipe
sender = (1 ∷ 2 ∷ [], [])

abbrev payload : List Byte
payload = 65 ∷ 66 ∷ []

abbrev receiver : Pipe
receiver = ([], all_bytes (message MessageType.request_rec_rule payload) ++ (9 ∷ []))

receive_message-send_message_example :
    (receiver' : Pipe) × (receive_message pipe receiver
      ≡ (inr (message_header MessageType.request_rec_rule payload, payload), receiver'))
    × (receiver'.1 ≡ 9 ∷ [])
unfolding send_message
receive_message-send_message_example =
    receive_message-send_message pipe pipe-IsStream MessageType.request_rec_rule payload (9 ∷ [])
      sender receiver (omega arith) refl refl

abbrev wire : Pipe
wire = ([], 0 ∷ 67 ∷ 89 ∷ 67 ∷ 3 ∷ 2 ∷ 0 ∷ 0 ∷ 0 ∷ 65 ∷ 66 ∷ 9 ∷ [])

wire-received :
    (receive_message pipe wire).0
    ≡ inr (message_header MessageType.request_rec_rule payload, payload)
unfolding receive_message receive_after receive_payload tcp_header_of value_of type_code
wire-received = refl

receive_message-bounded_example :
    (magic ≡ magic) × (length payload ≡ 2) × (length payload ≤ max_control_payload_size)
receive_message-bounded_example =
    receive_message-bounded pipe wire (message_header MessageType.request_rec_rule payload) payload
      pipe-ReadsWhole wire-received
