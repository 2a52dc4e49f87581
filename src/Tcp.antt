-- ===== src/Tcp.antt =====
-- The messages of CycLib/Tcp/TcpDefs.h and MessageUtils.h: a header of nine bytes and a payload.
-- The sockets are those of asio, a parameter: `asio::read` of a number of bytes and `asio::write` of
-- some buffers. What a failed call leaves in the header and the payload is left out; the callers
-- drop it.
pub mod Message
pub mod Accept
use cyc_flow.Base.{
  ℕ, ◌+◌, ◌%◌, ◌^◌, ◌⊎◌, inl, inr, not, ltb, ◌==◌, if◌then◌else◌, Option, List, [], ◌∷◌, ◌++◌,
  length, get_or, take, slice,
}
use cyc_flow.Chunk.{Byte}
use cyc_flow.Cbf.{bytes_of, value_of}

-- MessageType.
pub data MessageType : Type 0 where
  request_buffer_list response_buffer_list request_rec_rule response_rec_rule : MessageType
  request_data_stream request_data_batch response_data_batch response_error : MessageType

unfoldable pub type_code : MessageType → Byte
type_code MessageType.request_buffer_list = 1
type_code MessageType.response_buffer_list = 2
type_code MessageType.request_rec_rule = 3
type_code MessageType.response_rec_rule = 4
type_code MessageType.request_data_stream = 5
type_code MessageType.request_data_batch = 6
type_code MessageType.response_data_batch = 7
type_code MessageType.response_error = 8

-- The signature of a header, 0x43594300.
abbrev pub magic : ℕ
magic = 1129923328

-- TcpHeader; `type` is the byte of a message type, and may be none of them where it is received.
pub record TcpHeader : Type 0 where
  pub signature : ℕ
  pub type : Byte
  pub payload_size : ℕ

-- kMaxControlPayloadSize.
abbrev pub max_control_payload_size : ℕ
max_control_payload_size = 16777216

-- The nine bytes of a header in memory.
unfoldable pub tcp_header_bytes : TcpHeader → List Byte
tcp_header_bytes h = bytes_of 4 h.signature ++ (h.type ∷ bytes_of 4 h.payload_size)

-- The packed struct whose memory these bytes are, as a read into it fills it.
unfoldable pub tcp_header_of : List Byte → TcpHeader
tcp_header_of bytes = record {
  signature = value_of (take 4 bytes);
  type = get_or bytes 4 0;
  payload_size = value_of (slice 5 4 bytes);
}

-- The codes that MessageUtils makes, and the others of asio.
pub data ErrorCode : Type 0 where
  operation_aborted message_size : ErrorCode
  failed : ℕ → ErrorCode

-- What the code uses of asio: the bytes read or an error, an error of a write, and the socket.
pub record Asio (Socket : Type 0) : Type 0 where
  pub read : ℕ → Socket → (ErrorCode ⊎ List Byte) × Socket
  pub write : List (List Byte) → Socket → Option ErrorCode × Socket

-- The header and the buffers that `sendMessage` writes.
abbrev pub message_header : MessageType → List Byte → TcpHeader
message_header type payload = record {
  signature = magic;
  type = type_code type;
  payload_size = length payload % 2 ^ 32;
}

unfoldable pub message : MessageType → List Byte → List (List Byte)
message type payload =
    let header = message_header type payload in
    tcp_header_bytes header ∷ (if header.payload_size == 0 then [] else payload ∷ [])

unfoldable pub receive_payload :
    {Socket : Type 0}
    → TcpHeader
    → (ErrorCode ⊎ List Byte) × Socket
    → (ErrorCode ⊎ TcpHeader × List Byte) × Socket
receive_payload header (inl ec, socket) = (inl ec, socket)
receive_payload header (inr payload, socket) = (inr (header, payload), socket)

module _ {Socket : Type 0} (asio : Asio Socket) where
  unfoldable pub send_message : MessageType → List Byte → Socket → Option ErrorCode × Socket
  send_message type payload socket = asio.write (message type payload) socket

  -- `receiveMessage` from its first read on.
  unfoldable pub receive_after :
      (ErrorCode ⊎ List Byte) × Socket → (ErrorCode ⊎ TcpHeader × List Byte) × Socket
  receive_after (inl ec, socket) = (inl ec, socket)
  receive_after (inr bytes, socket) =
      let header = tcp_header_of bytes in
      if not (header.signature == magic)
      then (inl ErrorCode.operation_aborted, socket)
      else if header.payload_size == 0
      then (inr (header, []), socket)
      else if ltb max_control_payload_size header.payload_size
      then (inl ErrorCode.message_size, socket)
      else receive_payload header (asio.read header.payload_size socket)

  unfoldable pub receive_message : Socket → (ErrorCode ⊎ TcpHeader × List Byte) × Socket
  receive_message socket = receive_after (asio.read 9 socket)
