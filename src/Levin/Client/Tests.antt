-- ===== src/Levin/Client/Tests.antt =====
-- The client on small inputs.
use go_monero.Base.{◌+◌, ◌-◌, ◌≤◌, ◌≡◌, refl, [], ◌∷◌, ◌++◌, length, take, arith, ok, some, ◌>>=◌}
use go_monero.Base.Bytes.{Bytes, codes, le_bytes}
use go_monero.Base.Hex.{hex_decode}
use go_monero.Levin.Header.{
  Header, header_bytes, new_request_header, new_response_header, command_handshake,
  is_valid_command, is_valid_return_code,
}
use go_monero.Levin.Header.RoundTrip.{verdict}
use go_monero.Levin.Entry.{nil_value, boost_uint8, Entries, no_entries, entry, count_entries}
use go_monero.Levin.Storage.{storage_bytes, serial_bytes}
use go_monero.Levin.Storage.Read.{new_portable_storage_from_bytes}
use go_monero.Levin.Storage.Wire.{IsHash, sized, fields_of, body_of, hash_text, read_back}
use go_monero.Levin.Storage.Wire.Writing.{storage_wire, storage_bytes-wire}
use go_monero.Levin.VarIn.{var_in}
use go_monero.Levin.VarIn.Laws.{encoding}
use go_monero.Levin.Boost.{must_var_in, uint8_bytes}
use go_monero.Levin.Node.{new_node_from_entries}
use go_monero.Levin.TimedSync.{
  request_bytes, new_request_timed_sync, new_response_timed_sync, cumulative_difficulty,
  cumulative_difficulty_top64, top_version,
}
use go_monero.Levin.TimedSync.RoundTrip.{
  handshake_entries-AreWritable, new_response_timed_sync-request_bytes,
  new_node_from_entries-handshake_entries,
}
use go_monero.Levin.Conn.{Conn}
use go_monero.Levin.Client.{
  send, send_request, request_header, read_message, node_of, handshake, handshake_entries,
}
use go_monero.Levin.Client.Sending.{send-message, sending}
use go_monero.Levin.Client.Receiving.{read_message-send_request}
use go_monero.Levin.Client.Answering.{IsMessage, wire, handshake-answer}

-- 33 bytes of room and one more.
abbrev narrow : Conn
narrow = record { incoming = []; outgoing = []; room = 34 }

abbrev wide : Conn
wide = record { incoming = []; outgoing = []; room = 1000 }

abbrev ping_header : Header
ping_header = new_request_header 1003 2

-- The header goes out and one of the two bytes behind it.
send-message_example :
    ((send ping_header (7 ∷ 8 ∷ []) narrow).0 ≡ sending 34 2)
    × ((send ping_header (7 ∷ 8 ∷ []) narrow).1.outgoing
        ≡ take 34 (header_bytes ping_header ++ (7 ∷ 8 ∷ [])))
send-message_example = send-message ping_header (7 ∷ 8 ∷ []) narrow

abbrev small_storage : Entries
small_storage = entry (codes "a") (boost_uint8 7) nil_value no_entries

abbrev small_bytes : Bytes
small_bytes = 1 ∷ 17 ∷ 1 ∷ 1 ∷ 1 ∷ 1 ∷ 2 ∷ 1 ∷ 1 ∷ 4 ∷ 1 ∷ 97 ∷ 8 ∷ 7 ∷ []

small_written : storage_bytes small_storage ≡ ok small_bytes
unfolding storage_bytes serial_bytes must_var_in var_in count_entries uint8_bytes le_bytes
small_written = refl

abbrev zero_hash : Bytes
zero_hash = codes "0000000000000000000000000000000000000000000000000000000000000000"

zero_hash-IsHash : IsHash zero_hash
unfolding hex_decode
zero_hash-IsHash = (_, refl, refl)

-- A notification of the chain, and an answer.
read_message-send_request_example :
    (message : Bytes) × ((send_request 2006 small_bytes wide).0 ≡ ok tt)
    × ((send_request 2006 small_bytes wide).1.outgoing ≡ message)
    × (read_message (record wide { incoming = message ++ (5 ∷ []) }) ≡ (
      ok (request_header 2006 14, some (read_back small_storage)),
      record wide { incoming = 5 ∷ [] },
    ))
unfolding is_valid_command count_entries
read_message-send_request_example =
    read_message-send_request 2006 small_storage small_bytes (5 ∷ []) wide wide refl
      (omega arith, omega arith, tt) (omega arith) small_written (omega arith) (omega arith)

new_response_timed_sync-request_bytes_example :
    (bytes : Bytes) × (request_bytes (new_request_timed_sync 5 zero_hash) ≡ ok bytes)
    × ((new_portable_storage_from_bytes [] (bytes ++ []) >>= new_response_timed_sync)
        ≡ ok (record {
          payload_data = record {
            current_height = 5;
            difficulty = cumulative_difficulty;
            difficulty_top64 = cumulative_difficulty_top64;
            top_id = hash_text zero_hash;
            version = top_version;
            seed = 0;
          };
          local_peerlist_new = [];
          local_peerlist_new_e = ([], nil_value);
        }))
new_response_timed_sync-request_bytes_example =
    new_response_timed_sync-request_bytes [] 5 zero_hash [] (omega arith) zero_hash-IsHash

new_node_from_entries-handshake_entries_example :
    (bytes : Bytes) × (storage_bytes (handshake_entries 5 zero_hash 9) ≡ ok bytes)
    × ((new_portable_storage_from_bytes [] (bytes ++ []) >>= new_node_from_entries)
        ≡ ok (record {
          peers = [];
          id = 9;
          rpc_port = 0;
          current_height = 5;
          top_version = top_version;
        }))
new_node_from_entries-handshake_entries_example =
    new_node_from_entries-handshake_entries [] 5 zero_hash 9 [] (omega arith) (omega arith)
      zero_hash-IsHash

-- What a buffer has behind the body.
abbrev behind : Bytes
behind = 0 ∷ 0 ∷ 0 ∷ 0 ∷ 0 ∷ 0 ∷ []

-- A ping with no body, and an answer that is an empty storage.
abbrev empty_ping : Header
empty_ping = new_request_header 1003 0

abbrev empty_storage : Bytes
empty_storage = 1 ∷ 17 ∷ 1 ∷ 1 ∷ 1 ∷ 1 ∷ 2 ∷ 1 ∷ 1 ∷ 0 ∷ []

abbrev answer_header : Header
answer_header = new_response_header command_handshake 10

request_header-IsMessage : IsMessage empty_ping []
unfolding verdict is_valid_command is_valid_return_code new_request_header
request_header-IsMessage = record {
  accepted = record {
    in_range = record {
      signature_u64 = omega arith;
      length_u64 = omega arith;
      command_u32 = omega arith;
      return_code_i32 = omega arith;
      flags_u32 = omega arith;
      version_u32 = omega arith;
    };
    passes = refl;
  };
  announced = refl;
  fits = omega arith;
}

answer_header-IsMessage : IsMessage answer_header empty_storage
unfolding verdict is_valid_command is_valid_return_code new_response_header
answer_header-IsMessage = record {
  accepted = record {
    in_range = record {
      signature_u64 = omega arith;
      length_u64 = omega arith;
      command_u32 = omega arith;
      return_code_i32 = omega arith;
      flags_u32 = omega arith;
      version_u32 = omega arith;
    };
    passes = refl;
  };
  announced = refl;
  fits = omega arith;
}

abbrev sent_payload : Bytes
sent_payload = storage_wire (handshake_entries 5 zero_hash 9)

abbrev at_handshake : Conn
at_handshake = record {
  incoming =
      wire ((empty_ping, []) ∷ []) ++ (header_bytes answer_header ++ (empty_storage ++ (4 ∷ [])));
  outgoing = [];
  room = 1000;
}

sent_payload_fits : 33 + length sent_payload ≤ 1000
unfolding storage_wire encoding fields_of body_of sized hash_text hex_decode le_bytes count_entries
sent_payload_fits = omega arith

handshake-answer_example : handshake behind 5 zero_hash 9 at_handshake ≡ (
  node_of behind empty_storage,
  record {
    incoming = 4 ∷ [];
    outgoing =
        header_bytes (new_request_header command_handshake (length sent_payload)) ++ sent_payload;
    room = 1000 - (33 + length sent_payload);
  },
)
unfolding count_entries storage_wire new_request_header new_response_header
handshake-answer_example =
    handshake-answer behind 5 zero_hash 9 sent_payload ((empty_ping, []) ∷ []) answer_header
      empty_storage (4 ∷ []) wide
      (storage_bytes-wire (handshake_entries 5 zero_hash 9)
        (handshake_entries-AreWritable 5 zero_hash 9 (omega arith) (omega arith) zero_hash-IsHash)
        (omega arith))
      sent_payload_fits ((request_header-IsMessage, omega arith), tt) answer_header-IsMessage refl
