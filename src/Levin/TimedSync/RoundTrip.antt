-- ===== src/Levin/TimedSync/RoundTrip.antt =====
-- What a peer reads of the bodies that the client sends: a timed sync and a handshake.
use go_monero.Base.{ℕ, ◌<◌, ◌^◌, ◌≡◌, refl, [], ◌++◌, arith, ok, ◌>>=◌}
use go_monero.Base.Bytes.{Bytes, bytes_eq}
use go_monero.Levin.Entry.{nil_value, count_entries, as_entries, as_uint64, as_string, as_uint8}
use go_monero.Levin.Storage.{storage_bytes}
use go_monero.Levin.Storage.Read.{new_portable_storage_from_bytes}
use go_monero.Levin.Storage.Wire.{AreWritable, IsHash, hash_text, value_of, read_back}
use go_monero.Levin.Storage.Wire.Reading.{parse-storage_bytes}
use go_monero.Levin.Node.{node_fields, payload_fields, node_loop, new_node_from_entries}
use go_monero.Levin.TimedSync.{
  top_version, cumulative_difficulty, cumulative_difficulty_top64, new_request_timed_sync,
  sync_entries, request_entries, request_bytes, sync_fields, response_fields,
  new_response_timed_sync,
}
use go_monero.Levin.Client.{handshake_entries}

-- The section that both send can be written.
sync_entries-AreWritable :
    (height : ℕ) (hash : Bytes)
    → height < 2 ^ 64
    → IsHash hash
    → AreWritable (sync_entries height hash)
sync_entries-AreWritable height hash small h = (
  omega arith,
  omega arith,
  (
    omega arith,
    omega arith,
    (omega arith, small, (omega arith, h, (omega arith, omega arith, tt))),
  ),
)

-- The bytes of a timed sync, made with a uint64 height and a hash of 64 hexadecimal digits, parse to a storage that holds the height and the hash it was made with,
-- the hash as its 32 bytes, and the constants of the program.
pub new_response_timed_sync-request_bytes :
    (spare : Bytes) (height : ℕ) (hash rest : Bytes)
    → height < 2 ^ 64
    → IsHash hash
    → (bytes : Bytes) × (request_bytes (new_request_timed_sync height hash) ≡ ok bytes)
      × ((new_portable_storage_from_bytes spare (bytes ++ rest) >>= new_response_timed_sync)
          ≡ ok (record {
            payload_data = record {
              current_height = height;
              difficulty = cumulative_difficulty;
              difficulty_top64 = cumulative_difficulty_top64;
              top_id = hash_text hash;
              version = top_version;
              seed = 0;
            };
            local_peerlist_new = [];
            local_peerlist_new_e = ([], nil_value);
          }))
unfolding request_bytes new_request_timed_sync new_response_timed_sync response_fields sync_fields
    bytes_eq value_of read_back count_entries as_entries as_uint64 as_string as_uint8
new_response_timed_sync-request_bytes spare height hash rest small h =
    let (bytes, written, parsed) =
      parse-storage_bytes spare (request_entries (new_request_timed_sync height hash)) rest
        (omega arith, (sync_entries-AreWritable height hash small h, omega arith), tt)
        (omega arith) in
    (bytes, written, rw parsed refl)

-- So can what a handshake sends.
pub handshake_entries-AreWritable :
    (height : ℕ) (hash : Bytes) (peer_id : ℕ)
    → height < 2 ^ 64
    → peer_id < 2 ^ 64
    → IsHash hash
    → AreWritable (handshake_entries height hash peer_id)
unfolding count_entries
handshake_entries-AreWritable height hash peer_id small small_id h = (
  omega arith,
  (
    (
      omega arith,
      omega arith,
      (omega arith, omega arith, (omega arith, small_id, (omega arith, omega arith, tt))),
    ),
    omega arith,
  ),
  (omega arith, (sync_entries-AreWritable height hash small h, omega arith), tt),
)

-- A peer that reads the body of a handshake, made with a uint64 height, a uint64 id and a hash of 64
-- hexadecimal digits, as Handshake itself reads an answer takes from it the id and the height of the
-- client and the constant version, and no peers, whatever follows the body and whatever the capacity
-- of the slice.
pub new_node_from_entries-handshake_entries :
    (spare : Bytes) (height : ℕ) (hash : Bytes) (peer_id : ℕ) (rest : Bytes)
    → height < 2 ^ 64
    → peer_id < 2 ^ 64
    → IsHash hash
    → (bytes : Bytes) × (storage_bytes (handshake_entries height hash peer_id) ≡ ok bytes)
      × ((new_portable_storage_from_bytes spare (bytes ++ rest) >>= new_node_from_entries)
          ≡ ok (record {
            peers = [];
            id = peer_id;
            rpc_port = 0;
            current_height = height;
            top_version = top_version;
          }))
unfolding new_node_from_entries node_loop node_fields payload_fields bytes_eq value_of read_back
    count_entries as_entries as_uint64 as_string as_uint8
new_node_from_entries-handshake_entries spare height hash peer_id rest small small_id h =
    let (bytes, written, parsed) =
      parse-storage_bytes spare (handshake_entries height hash peer_id) rest
        (handshake_entries-AreWritable height hash peer_id small small_id h) (omega arith) in
    (bytes, written, rw parsed refl)
