-- ===== src/Levin/Client.antt =====
-- The levin client: levin/client.go.
pub mod Sending
pub mod Receiving
pub mod Answering
pub mod Rounds
mod Tests
use go_monero.Base.{
  ℕ, zero, suc, ◌^◌, Bool, false, not, ◌||◌, [], ◌∷◌, length, ltb, leb, ◌==◌, if◌then◌else◌, Option,
  none, some, Result, ok, err, panic, out_of_fuel, too_big, ◌>>=◌,
}
use go_monero.Base.Bytes.{Bytes}
use go_monero.Base.Int.{to_signed}
use go_monero.Levin.Error.{Error}
use go_monero.Levin.Header.{
  Header, new_request_header, new_response_header, header_bytes, new_header_from_bytes,
  levin_header_size_bytes, command_handshake, notify_request_fluffy_missing,
}
use go_monero.Levin.Entry.{
  boost_uint32, boost_uint64, boost_string, section, nil_value, Entries, no_entries, entry,
}
use go_monero.Levin.Storage.{storage_bytes}
use go_monero.Levin.Storage.Read.{new_portable_storage_from_bytes}
use go_monero.Levin.Node.{Node, new_node_from_entries}
use go_monero.Levin.TimedSync.{sync_entries}
use go_monero.Levin.Conn.{Conn, write, read_full, copy_n}
use go_monero.Base.Bytes.{codes}

-- The errors of the methods, each with the one that it wraps.
pub data ClientError : Type 0 where
  write_header write_payload read_header read_body : ClientError
  bad_header bad_storage : Error → ClientError

-- What a method returns, and the connection behind it.
abbrev pub Outcome : Type 0 → Type 0
Outcome A = Result ClientError A × Conn

abbrev pub notify_request_get_objects : ℕ
notify_request_get_objects = 2003

abbrev pub notify_request_chain : ℕ
notify_request_chain = 2006

abbrev pub support_flags : ℕ
support_flags = 1

abbrev pub my_port : ℕ
my_port = 18080

abbrev pub mainnet_network_id : Bytes
mainnet_network_id =
    0x12 ∷ 0x30 ∷ 0xf1 ∷ 0x71 ∷ 0x61 ∷ 0x04 ∷ 0x41 ∷ 0x61 ∷ 0x17 ∷ 0x31 ∷ 0x00 ∷ 0x82 ∷ 0x16 ∷ 0xa1
    ∷ 0xa1 ∷ 0x10 ∷ []

-- What a 64-bit Go run-time can allocate in one slice; `make` panics beyond.
abbrev pub max_alloc : ℕ
max_alloc = 2 ^ 48

abbrev pub nil_payload : Result Error Bytes
nil_payload = storage_bytes no_entries

-- The header, and the payload where there is one.
unfoldable pub send : Header → Bytes → Conn → Outcome (Unit {0})
send h payload c =
    let (sent, c1) = write (header_bytes h) c in
    let (sent_payload, c2) = write payload c1 in
    if not sent
    then (err write_header, c1)
    else if ltb 0 (length payload)
    then (if sent_payload then ok tt else err write_payload, c2)
    else (ok tt, c1)

-- `slices.Contains([]uint32{...}, Command)`
abbrev pub is_notification : ℕ → Bool
is_notification command =
    command == notify_request_chain
    || (command == notify_request_get_objects || command == notify_request_fluffy_missing)

unfoldable pub request_header : ℕ → ℕ → Header
request_header command len =
    let h = new_request_header command len in
    if is_notification command then record h { expects_response = false } else h

unfoldable pub send_request : ℕ → Bytes → Conn → Outcome (Unit {0})
send_request command payload = send (request_header command (length payload)) payload

unfoldable pub send_response : ℕ → Bytes → Conn → Outcome (Unit {0})
send_response command payload = send (new_response_header command (length payload)) payload

-- A result of the package, as the client wraps it.
abbrev pub wrap : (Error → ClientError) → {A : Type 0} → Result Error A → Result ClientError A
wrap by (ok a) = ok a
wrap by (err e) = err (by e)
wrap by (panic p) = panic p
wrap by out_of_fuel = out_of_fuel

-- The end of ReadMessage, on the outcome of reading the body, in a slice of `make` that has no capacity
-- behind its length.
unfoldable pub message_of : Header → Option Bytes × Conn → Outcome (Header × Option Entries)
message_of h (none, c) = (err read_body, c)
message_of h (some b, c) =
    (do ps ← wrap bad_storage (new_portable_storage_from_bytes [] b); ok (h, some ps), c)

unfoldable pub read_message_body : Result Error Header → Conn → Outcome (Header × Option Entries)
read_message_body (err e) c = (err (bad_header e), c)
read_message_body (panic p) c = (panic p, c)
read_message_body out_of_fuel c = (out_of_fuel, c)
read_message_body (ok h) c =
    if h.payload_length == 0
    then (ok (h, none), c)
    else if leb max_alloc h.payload_length
    then (panic too_big, c)
    else message_of h (read_full h.payload_length c)

unfoldable pub read_message_from : Option Bytes × Conn → Outcome (Header × Option Entries)
read_message_from (none, c) = (err read_header, c)
read_message_from (some b, c) = read_message_body (new_header_from_bytes b) c

unfoldable pub read_message : Conn → Outcome (Header × Option Entries)
read_message c = read_message_from (read_full levin_header_size_bytes c)

abbrev pub handshake_entries : ℕ → Bytes → ℕ → Entries
handshake_entries height hash peer_id =
    entry (codes "node_data")
      (section (
        entry (codes "network_id") (boost_string mainnet_network_id) nil_value (
          entry (codes "my_port") (boost_uint32 my_port) nil_value (
            entry (codes "peer_id") (boost_uint64 peer_id) nil_value
              (entry (codes "support_flags") (boost_uint32 support_flags) nil_value no_entries)))))
      nil_value
      (entry (codes "payload_data") (section (sync_entries height hash)) nil_value no_entries)

-- The last part of Handshake, on the storage of the answer. The body stands in a bytes.Buffer; `spare`
-- is what the array of the buffer holds behind it, which depends on how the buffer has grown.
abbrev pub node_of : Bytes → Bytes → Result ClientError Node
node_of spare b = do
  ps ← wrap bad_storage (new_portable_storage_from_bytes spare b)
  wrap bad_storage (new_node_from_entries ps)

-- `if respHeader.Length != 0`; the length is converted to int64.
unfoldable pub copied : Header → Conn → Option Bytes × Conn
copied h c =
    if not (h.payload_length == 0)
    then copy_n (to_signed (2 ^ 63) h.payload_length) c
    else (some [], c)

-- A message of another command is dropped, `goto again`.
unfoldable pub answer_or_again :
    Bytes → (Conn → Outcome Node) → Header → Option Bytes × Conn → Outcome Node
answer_or_again spare again h (none, c) = (err read_body, c)
answer_or_again spare again h (some b, c) =
    if not (h.command == command_handshake) then again c else (node_of spare b, c)

unfoldable pub await_body :
    Bytes → (Conn → Outcome Node) → Result Error Header → Conn → Outcome Node
await_body spare again (err e) c = (err (bad_header e), c)
await_body spare again (panic p) c = (panic p, c)
await_body spare again out_of_fuel c = (out_of_fuel, c)
await_body spare again (ok h) c = answer_or_again spare again h (copied h c)

unfoldable pub await_from : Bytes → (Conn → Outcome Node) → Option Bytes × Conn → Outcome Node
await_from spare again (none, c) = (err read_header, c)
await_from spare again (some b, c) = await_body spare again (new_header_from_bytes b) c

-- The rounds from the label `again`: messages are read until one answers a handshake. Each round
-- takes a header of 33 bytes, so the bytes to come bound the rounds.
unfoldable pub await : Bytes → ℕ → Conn → Outcome Node
await spare zero c = (out_of_fuel, c)
await spare (suc f) c =
    await_from spare (λ c1. await spare f c1) (read_full levin_header_size_bytes c)

-- Both writes are made even where the payload is empty, which it never is.
unfoldable pub handshake_with : Bytes → Bytes → Conn → Outcome Node
handshake_with spare payload c =
    let header = header_bytes (new_request_header command_handshake (length payload)) in
    let (sent, c1) = write header c in
    let (sent_payload, c2) = write payload c1 in
    let answer = await spare (suc (length c.incoming)) c2 in
    if not sent
    then (err write_header, c1)
    else if not sent_payload
    then (err write_payload, c2)
    else answer

unfoldable pub handshake_from : Bytes → Result Error Bytes → Conn → Outcome Node
handshake_from spare (ok payload) c = handshake_with spare payload c
handshake_from spare (err e) c = (err (bad_storage e), c)
handshake_from spare (panic p) c = (panic p, c)
handshake_from spare out_of_fuel c = (out_of_fuel, c)

unfoldable pub handshake : Bytes → ℕ → Bytes → ℕ → Conn → Outcome Node
handshake spare height hash peer_id =
    handshake_from spare (storage_bytes (handshake_entries height hash peer_id))
