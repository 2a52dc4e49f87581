-- ===== src/Tcp/Message.antt =====
-- What is sent as a message is received as one.
use cyc_flow.Base.{
  ℕ, ◌+◌, ◌^◌, ◌≤◌, ◌<◌, ◌≡◌, refl, ap, sym, ◌∙◌, ◌⊎◌, inl, inr, ltb, ◌==◌, Bool, true, false,
  Bool-cases, if◌then◌else◌, none, List, [], ◌∷◌, ◌++◌, length, get_or, take, drop, slice,
  length-append, get_or-append_right, take-front, drop-front, take-all, append-nil, append_assoc,
  arith,
}
use cyc_flow.Chunk.{Byte}
use cyc_flow.Cbf.{bytes_of, value_of}
use cyc_flow.Cbf.Bytes.{length-bytes_of, value_of-bytes_of}
use cyc_flow.Tcp.{
  MessageType, TcpHeader, max_control_payload_size, tcp_header_bytes, message_header, tcp_header_of,
  ErrorCode, Asio, message, send_message, receive_payload, receive_after, receive_message,
}

length-tcp_header_bytes : (h : TcpHeader) → length (tcp_header_bytes h) ≡ 9
unfolding tcp_header_bytes
length-tcp_header_bytes h = omega (
  arith,
  length-append (bytes_of 4 h.signature) (h.type ∷ bytes_of 4 h.payload_size),
  length-bytes_of 4 h.signature,
  length-bytes_of 4 h.payload_size,
)

-- A header comes back from its nine bytes.
tcp_header_of-tcp_header_bytes :
    (h : TcpHeader)
    → h.signature < 2 ^ 32
    → h.payload_size < 2 ^ 32
    → tcp_header_of (tcp_header_bytes h) ≡ h
unfolding tcp_header_of tcp_header_bytes
tcp_header_of-tcp_header_bytes h signed sized =
    ap (λ k. made k (get_or whole 4 0) (value_of (slice 5 4 whole))) signature_back
    ∙ ap (λ t. made h.signature t (value_of (slice 5 4 whole))) type_back
    ∙ ap (made h.signature h.type) size_back
  where
    made : ℕ → ℕ → ℕ → TcpHeader
    made signature type size = record { signature = signature; type = type; payload_size = size }

    front : List Byte
    front = bytes_of 4 h.signature

    size : List Byte
    size = bytes_of 4 h.payload_size

    whole : List Byte
    whole = front ++ (h.type ∷ size)

    signature_back : value_of (take 4 whole) ≡ h.signature
    signature_back =
        ap value_of (take-front 4 front (h.type ∷ size) (length-bytes_of 4 h.signature))
        ∙ value_of-bytes_of 4 h.signature signed

    type_back : get_or whole 4 0 ≡ h.type
    type_back =
        let e : 4 ≡ length front + 0 = omega (arith, length-bytes_of 4 h.signature) in
        ap (λ k. get_or whole k 0) e ∙ get_or-append_right front (h.type ∷ size) 0 0

    size_back : value_of (slice 5 4 whole) ≡ h.payload_size
    size_back =
        ap (λ bytes. value_of (slice 5 4 bytes)) (sym (append_assoc front (h.type ∷ []) size))
        ∙ ap (λ bytes. value_of (take 4 bytes))
            (drop-front 5 (front ++ (h.type ∷ [])) size
              (omega (arith, length-append front (h.type ∷ []), length-bytes_of 4 h.signature)))
        ∙ ap value_of (take-all 4 size (omega (arith, length-bytes_of 4 h.payload_size)))
        ∙ value_of-bytes_of 4 h.payload_size sized

abbrev pub all_bytes : List (List Byte) → List Byte
all_bytes [] = []
all_bytes (buffer ∷ buffers) = buffer ++ all_bytes buffers

no_bytes : (payload : List Byte) → length payload ≡ 0 → payload ≡ []
no_bytes [] e = refl
no_bytes (b ∷ payload) e = absurd (omega (arith, e))

module _ {Socket : Type 0} (asio : Asio Socket) where
  -- The documented behaviour of asio on a connection: a write that succeeds has sent its buffers in
  -- order, and a read of bytes that have arrived takes just these.
  pub record IsStream (sent pending : Socket → List Byte) : Type 0 where
    pub writes :
        (buffers : List (List Byte)) (socket : Socket)
        → (asio.write buffers socket).0 ≡ none
        → sent (asio.write buffers socket).1 ≡ sent socket ++ all_bytes buffers
    pub reads :
        (n : ℕ) (socket : Socket)
        → n ≤ length (pending socket)
        → (socket' : Socket) × (asio.read n socket ≡ (inr (take n (pending socket)), socket'))
          × (pending socket' ≡ drop n (pending socket))

  module _ {sent pending : Socket → List Byte} (stream : IsStream sent pending) where
    read-front :
        (n : ℕ) (bytes rest : List Byte) (socket : Socket)
        → length bytes ≡ n
        → pending socket ≡ bytes ++ rest
        → (socket' : Socket) × (asio.read n socket ≡ (inr bytes, socket'))
          × (pending socket' ≡ rest)
    read-front n bytes rest socket e arrived =
        let (socket', got, left) =
          stream.reads n socket
            (omega (arith, ap (λ xs. length xs) arrived, length-append bytes rest, e)) in
        (
          socket',
          got ∙ ap (λ xs. (inr xs, socket')) (ap (take n) arrived ∙ take-front n bytes rest e),
          left ∙ ap (drop n) arrived ∙ drop-front n bytes rest e,
        )

    -- The empty payload, and any other.
    receive-header :
        (type : MessageType) (payload : List Byte) (socket : Socket)
        → length payload ≤ max_control_payload_size
        → receive_after asio (inr (tcp_header_bytes (message_header type payload)), socket) ≡ (
            if (message_header type payload).payload_size == 0
            then (inr (message_header type payload, []), socket)
            else receive_payload
                (message_header type payload)
                (asio.read (message_header type payload).payload_size socket))
    unfolding receive_after
    receive-header type payload socket small =
        rw
          (
            tcp_header_of-tcp_header_bytes (message_header type payload) (omega arith)
                (omega arith),
            fits,
          )
          refl
      where
        fits : ltb max_control_payload_size (message_header type payload).payload_size ≡ false
        fits = ground (arith, small)

    receive-arrived :
        (type : MessageType) (payload rest : List Byte) (socket : Socket)
        → length payload ≤ max_control_payload_size
        → pending socket ≡ all_bytes (message type payload) ++ rest
        → (socket' : Socket) × (receive_message asio socket
            ≡ (inr (message_header type payload, payload), socket'))
          × (pending socket' ≡ rest)
    unfolding receive_message receive_payload message
    receive-arrived type payload rest socket small arrived =
        let (socket', got, left) =
          read-front 9 (tcp_header_bytes header) (all_bytes body ++ rest) socket
            (length-tcp_header_bytes header)
            (arrived ∙ append_assoc (tcp_header_bytes header) (all_bytes body) rest) in
        elim (Bool-cases (header.payload_size == 0)) [
          | inl empty ↦ (
            socket',
            ap (receive_after asio) got
                ∙ receive-header type payload socket' small
                ∙ ap (taken socket') empty
                ∙ ap (λ p. (inr (header, p), socket')) (sym (nothing empty)),
            left ∙ rw empty refl,
          )
          | inr some_sent ↦
              let (socket'', got', left') =
                read-front header.payload_size payload rest socket' (sym size)
                  (left ∙ rw some_sent (ap (λ xs. xs ++ rest) (append-nil payload))) in
              (
                socket'',
                ap (receive_after asio) got
                    ∙ receive-header type payload socket' small
                    ∙ ap (taken socket') some_sent
                    ∙ ap (receive_payload header) got',
                left',
              )
        ]
      where
        header : TcpHeader
        header = message_header type payload

        body : List (List Byte)
        body = if header.payload_size == 0 then [] else payload ∷ []

        size : header.payload_size ≡ length payload
        size = omega (arith, small)

        taken : Socket → Bool → (ErrorCode ⊎ TcpHeader × List Byte) × Socket
        taken socket b =
            if b
            then (inr (header, []), socket)
            else receive_payload header (asio.read header.payload_size socket)

        nothing : (header.payload_size == 0) ≡ true → payload ≡ []
        nothing empty = no_bytes payload (ground (arith, sym size, empty))

    -- Where a message is sent without an error and its bytes are the next that arrive,
    -- `receiveMessage` gives its header with its type and its payload, and leaves what follows it.
    -- (The payload has at most 16 MiB; the sockets of asio send a write's buffers in order, and a
    -- read of bytes that have arrived takes just these.)
    pub receive_message-send_message :
        (type : MessageType) (payload rest : List Byte) (sender receiver : Socket)
        → length payload ≤ max_control_payload_size
        → (send_message asio type payload sender).0 ≡ none
        → pending receiver
          ≡ drop (length (sent sender)) (sent (send_message asio type payload sender).1) ++ rest
        → (receiver' : Socket) × (receive_message asio receiver
            ≡ (inr (message_header type payload, payload), receiver'))
          × (pending receiver' ≡ rest)
    unfolding send_message
    receive_message-send_message type payload rest sender receiver small done arrived =
        receive-arrived type payload rest receiver small (
          arrived
          ∙ ap (λ bytes. drop (length (sent sender)) bytes ++ rest)
              (stream.writes (message type payload) sender done)
          ∙ ap (λ bytes. bytes ++ rest)
              (drop-front (length (sent sender)) (sent sender) (all_bytes (message type payload))
                refl))
