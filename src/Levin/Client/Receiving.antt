-- ===== src/Levin/Client/Receiving.antt =====
-- A message that one client sends is what ReadMessage of the other returns.
use go_monero.Base.{
  ℕ, ◌+◌, ◌≤◌, ◌<◌, ◌^◌, ◌≡◌, refl, sym, ap, ◌∙◌, Bool, true, false, not, [], ◌++◌, append_assoc,
  length, take, arith, if◌then◌else◌, ok, some, length-append, append-nil, ok_unique,
}
use go_monero.Base.Bytes.{Bytes, length-le_bytes}
use go_monero.Base.Int.{pos}
use go_monero.Levin.Header.{
  Header, IsHeader, header_bytes, new_header_from_bytes, is_valid_command, is_valid_return_code,
  new_request_header, new_response_header, levin_signature, levin_protocol_version,
  levin_packet_request, levin_packet_reponse,
}
use go_monero.Levin.Header.RoundTrip.{verdict, new_header_from_bytes-header_bytes}
use go_monero.Levin.Entry.{Entries, count_entries}
use go_monero.Levin.Storage.{storage_bytes}
use go_monero.Levin.Storage.Read.{new_portable_storage_from_bytes}
use go_monero.Levin.Storage.Wire.{AreWritable, read_back}
use go_monero.Levin.Storage.Wire.Writing.{storage_wire, storage_bytes-wire}
use go_monero.Levin.Storage.Wire.Reading.{parse-wire}
use go_monero.Levin.Conn.{Conn, read_full}
use go_monero.Levin.Conn.Laws.{take_all, read_full-front}
use go_monero.Levin.Client.{
  max_alloc, read_message, message_of, read_message_body, read_message_from, request_header,
  is_notification, send_request, send_response, send,
}
use go_monero.Levin.Client.Sending.{length-header_bytes, send-message, sending}

-- A header that the parser takes.
pub record IsAccepted (h : Header) : Type 0 where
  pub in_range : IsHeader h
  pub passes : verdict h ≡ ok h

-- A header is read off the front of the connection.
pub read_header_front :
    (h : Header) (rest : Bytes) (c : Conn)
    → IsAccepted h
    → (read_full 33 (record c { incoming = header_bytes h ++ rest })
        ≡ (some (header_bytes h), record c { incoming = rest }))
      × (new_header_from_bytes (header_bytes h) ≡ ok h)
read_header_front h rest c a = (
  read_full-front 33 (header_bytes h) rest c (length-header_bytes h),
  new_header_from_bytes-header_bytes h a.in_range ∙ a.passes,
)

storage_wire_long : (es : Entries) → 9 ≤ length (storage_wire es)
unfolding storage_wire
storage_wire_long es = simp (length-append, length-le_bytes) (omega arith)

-- The bytes of a storage are not empty, and they parse with nothing behind them.
pub payload_parses :
    (es : Entries) (payload : Bytes)
    → AreWritable es
    → count_entries es < 2 ^ 30
    → storage_bytes es ≡ ok payload
    → (0 < length payload) × (new_portable_storage_from_bytes [] payload ≡ ok (read_back es))
payload_parses es payload w small e =
    let same : payload ≡ storage_wire es = ok_unique e (storage_bytes-wire es w small) in
    (
      rw same (omega (arith, storage_wire_long es)),
      rw (same, sym (append-nil (storage_wire es))) (parse-wire [] es [] w small),
    )

-- ReadMessage of a header and the storage behind it.
read_message-front :
    (h : Header) (es : Entries) (payload rest : Bytes) (c : Conn)
    → IsAccepted h
    → AreWritable es
    → count_entries es < 2 ^ 30
    → storage_bytes es ≡ ok payload
    → h.payload_length ≡ length payload
    → length payload < max_alloc
    → read_message (record c { incoming = header_bytes h ++ (payload ++ rest) })
      ≡ (ok (h, some (read_back es)), record c { incoming = rest })
unfolding read_message read_message_from read_message_body message_of
read_message-front h es payload rest c a w small e len fits =
    let (r, p) = read_header_front h (payload ++ rest) c a in
    let (long, parsed) = payload_parses es payload w small e in
    rw (r, p, read_full-front h.payload_length payload rest c (sym len), parsed) (ground arith)

-- A header that one of the two constructors makes, with any answer flag.
made_header : Bool → ℕ → ℕ → ℕ → Header
made_header expects flags command len = record {
  signature = levin_signature;
  payload_length = len;
  expects_response = expects;
  command = command;
  return_code = pos 0;
  flags = flags;
  version = levin_protocol_version;
}

made_header-IsAccepted :
    (expects : Bool) (flags command len : ℕ)
    → flags < 2 ^ 32
    → is_valid_command command ≡ true
    → len < 2 ^ 64
    → IsAccepted (made_header expects flags command len)
unfolding made_header verdict is_valid_command is_valid_return_code
made_header-IsAccepted expects flags command len small valid fits = record {
  in_range = record {
    signature_u64 = omega arith;
    length_u64 = fits;
    command_u32 = ground arith;
    return_code_i32 = omega arith;
    flags_u32 = small;
    version_u32 = omega arith;
  };
  passes = ground arith;
}

request_header-made_header :
    (command len : ℕ)
    → request_header command len
      ≡ made_header (not (is_notification command)) levin_packet_request command len
unfolding request_header new_request_header made_header
request_header-made_header command len = by_flag (is_notification command)
  where
    by_flag :
        (b : Bool)
        → (if b
            then record (new_request_header command len) { expects_response = false }
            else new_request_header command len)
          ≡ made_header (not b) levin_packet_request command len
    by_flag true = refl
    by_flag false = refl

request_header-IsAccepted :
    (command len : ℕ)
    → is_valid_command command ≡ true
    → len < 2 ^ 64
    → IsAccepted (request_header command len) × ((request_header command len).payload_length ≡ len)
unfolding made_header
request_header-IsAccepted command len valid fits = rw (request_header-made_header command len) (
  made_header-IsAccepted (not (is_notification command)) levin_packet_request command len
      (omega arith) valid fits,
  refl,
)

response_header-IsAccepted :
    (command len : ℕ)
    → is_valid_command command ≡ true
    → len < 2 ^ 64
    → IsAccepted (new_response_header command len)
unfolding new_response_header made_header
response_header-IsAccepted command len valid fits =
    made_header-IsAccepted false levin_packet_reponse command len (omega arith) valid fits

module _ (command : ℕ) (es : Entries) (payload rest : Bytes) (c d : Conn)
    (valid : is_valid_command command ≡ true) (writable : AreWritable es)
    (small : count_entries es < 2 ^ 30) (written : storage_bytes es ≡ ok payload)
    (fits : length payload < max_alloc) (room : 33 + length payload ≤ c.room) where
  sent_message :
      (h : Header)
      → IsAccepted h
      → h.payload_length ≡ length payload
      → (message : Bytes) × ((send h payload c).0 ≡ ok tt)
        × ((send h payload c).1.outgoing ≡ c.outgoing ++ message)
        × (read_message (record d { incoming = message ++ rest })
            ≡ (ok (h, some (read_back es)), record d { incoming = rest }))
  unfolding sending
  sent_message h a len =
      let (result, out) = send-message h payload c in
      let whole : take c.room (header_bytes h ++ payload) ≡ header_bytes h ++ payload =
        take_all c.room (header_bytes h ++ payload)
          (omega (arith, length-append (header_bytes h) payload, length-header_bytes h)) in
      let read_it : read_message (record d { incoming = (header_bytes h ++ payload) ++ rest })
          ≡ (ok (h, some (read_back es)), record d { incoming = rest }) =
        rw (append_assoc (header_bytes h) payload rest)
          (read_message-front h es payload rest d a writable small written len fits) in
      (
        header_bytes h ++ payload,
        result ∙ ground arith,
        out ∙ ap (λ (t : Bytes). c.outgoing ++ t) whole,
        read_it,
      )

  -- A storage of fewer than 2^30 writable entries, in fewer than 2^48 bytes, that one client sends
  -- as a request with a valid command, over a connection that takes it, is what ReadMessage of the
  -- other returns, with the header of the request, whatever follows it. Messages over 100MB are
  -- among them, which the doc comment of Header says are rejected.
  pub read_message-send_request :
      (message : Bytes) × ((send_request command payload c).0 ≡ ok tt)
      × ((send_request command payload c).1.outgoing ≡ c.outgoing ++ message)
      × (read_message (record d { incoming = message ++ rest }) ≡ (
        ok (request_header command (length payload), some (read_back es)),
        record d { incoming = rest },
      ))
  unfolding send_request
  read_message-send_request =
      let (a, len) = request_header-IsAccepted command (length payload) valid (omega arith) in
      sent_message (request_header command (length payload)) a len

  -- A storage of fewer than 2^30 writable entries, in fewer than 2^48 bytes, that one client sends
  -- as a response with a valid command, over a connection that takes it, is what ReadMessage of the
  -- other returns, with the header of the response, whatever follows it.
  read_message-send_response :
      (message : Bytes) × ((send_response command payload c).0 ≡ ok tt)
      × ((send_response command payload c).1.outgoing ≡ c.outgoing ++ message)
      × (read_message (record d { incoming = message ++ rest }) ≡ (
        ok (new_response_header command (length payload), some (read_back es)),
        record d { incoming = rest },
      ))
  unfolding send_response new_response_header
  read_message-send_response =
      sent_message (new_response_header command (length payload))
        (response_header-IsAccepted command (length payload) valid (omega arith)) refl
