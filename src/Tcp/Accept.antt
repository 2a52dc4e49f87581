-- ===== src/Tcp/Accept.antt =====
-- What `receiveMessage` lets in.
use cyc_flow.Base.{
  ℕ, ◌≤◌, ◌≡◌, refl, subst, ◌⊎◌, inl, inr, ltb, ◌==◌, Bool-cases, List, length, arith,
}
use cyc_flow.Chunk.{Byte}
use cyc_flow.Tcp.{
  magic, TcpHeader, max_control_payload_size, tcp_header_of, ErrorCode, Asio, receive_payload,
  receive_after, receive_message,
}

module _ {Socket : Type 0} (asio : Asio Socket) where
  -- The documented behaviour of asio: a read that succeeds fills its buffer.
  abbrev pub ReadsWhole : Type 0
  ReadsWhole =
      (n : ℕ) (socket : Socket) (bytes : List Byte)
      → (asio.read n socket).0 ≡ inr bytes
      → length bytes ≡ n

  abbrev IsAccepted : ErrorCode ⊎ TcpHeader × List Byte → Type 0
  IsAccepted (inl ec) = Unit {0}
  IsAccepted (inr (header, payload)) =
      (header.signature ≡ magic)
      × (length payload ≡ header.payload_size)
      × (length payload ≤ max_control_payload_size)

  payload-IsAccepted :
      (header : TcpHeader) (got : (ErrorCode ⊎ List Byte) × Socket)
      → header.signature ≡ magic
      → header.payload_size ≤ max_control_payload_size
      → ((bytes : List Byte) → got.0 ≡ inr bytes → length bytes ≡ header.payload_size)
      → IsAccepted (receive_payload header got).0
  unfolding receive_payload
  payload-IsAccepted header (inl ec, socket) signed small whole = tt
  payload-IsAccepted header (inr bytes, socket) signed small whole =
      (signed, whole bytes refl, omega (arith, whole bytes refl, small))

  after-IsAccepted :
      (got : (ErrorCode ⊎ List Byte) × Socket) → ReadsWhole → IsAccepted (receive_after asio got).0
  unfolding receive_after
  after-IsAccepted (inl ec, socket) whole = tt
  after-IsAccepted (inr bytes, socket) whole = elim (Bool-cases (header.signature == magic)) [
    | inr other ↦ rw other tt
    | inl signed ↦ elim (Bool-cases (header.payload_size == 0)) [
      | inl none_sent ↦
          rw (signed, none_sent) (ground (arith, signed), ground (arith, none_sent), omega arith)
      | inr some_sent ↦ elim (Bool-cases (ltb max_control_payload_size header.payload_size)) [
        | inl large ↦ rw (signed, some_sent, large) tt
        | inr fits ↦
            rw (signed, some_sent, fits)
              (payload-IsAccepted header (asio.read header.payload_size socket)
                (ground (arith, signed)) (ground (arith, fits)) (whole header.payload_size socket))
      ]
    ]
  ]
    where
      header : TcpHeader
      header = tcp_header_of bytes

  -- Whatever arrives, a message that `receiveMessage` lets in has the signature, the payload is as
  -- long as its header says, and it has at most 16 MiB. (A read of asio that succeeds fills its
  -- buffer.)
  pub receive_message-bounded :
      (socket : Socket) (header : TcpHeader) (payload : List Byte)
      → ReadsWhole
      → (receive_message asio socket).0 ≡ inr (header, payload)
      → (header.signature ≡ magic)
        × (length payload ≡ header.payload_size)
        × (length payload ≤ max_control_payload_size)
  unfolding receive_message
  receive_message-bounded socket header payload whole e =
      subst IsAccepted e (after-IsAccepted (asio.read 9 socket) whole)
