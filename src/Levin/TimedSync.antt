-- ===== src/Levin/TimedSync.antt =====
-- The request and the answer of a timed sync: levin/timedsync.go.
pub mod RoundTrip
use go_monero.Base.{ℕ, not, ◌&&◌, List, [], ◌∷◌, length, ◌==◌, if◌then◌else◌, Result, ok, ◌>>=◌}
use go_monero.Base.Bytes.{Bytes, codes, bytes_eq}
use go_monero.Base.Int.{ℤ, pos}
use go_monero.Levin.Error.{Error}
use go_monero.Levin.Entry.{
  Value, nil_value, boost_uint8, boost_uint64, boost_hash, section, Entries, no_entries, entry,
  as_string, as_uint8, as_uint32, as_uint64, as_entries,
}
use go_monero.Levin.Storage.{storage_bytes}
use go_monero.Levin.Node.{Peer, addr_fields}

abbrev pub top_version : ℕ
top_version = 16

abbrev pub cumulative_difficulty_top64 : ℕ
cumulative_difficulty_top64 = 0

abbrev pub cumulative_difficulty : ℕ
cumulative_difficulty = 1559285794759

pub record CoreSyncData : Type 0 where
  pub current_height : ℕ
  pub difficulty : ℕ
  pub difficulty_top64 : ℕ
  pub top_id : Bytes
  pub version : ℕ
  pub seed : ℕ

pub record PeerListEntryBase : Type 0 where
  pub adr : Peer
  pub id : ℕ
  pub last_seen : ℤ
  pub pruning_seed : ℕ
  pub rpc_port : ℕ
  pub rpc_credits_per_hash : ℕ

pub record RequestTimedSync : Type 0 where
  pub payload_data : CoreSyncData

pub record ResponseTimedSync : Type 0 where
  pub payload_data : CoreSyncData
  pub local_peerlist_new : List PeerListEntryBase
  -- the entry that the list was read from: its name and its value
  pub local_peerlist_new_e : Bytes × Value

abbrev pub no_sync_data : CoreSyncData
no_sync_data = record {
  current_height = 0;
  difficulty = 0;
  difficulty_top64 = 0;
  top_id = [];
  version = 0;
  seed = 0;
}

unfoldable pub new_request_timed_sync : ℕ → Bytes → RequestTimedSync
new_request_timed_sync height hash = record {
  payload_data = record no_sync_data { current_height = height; top_id = hash };
}

-- The section that a timed sync and a handshake send.
abbrev pub sync_entries : ℕ → Bytes → Entries
sync_entries height hash =
    entry (codes "cumulative_difficulty") (boost_uint64 cumulative_difficulty) nil_value (
      entry (codes "cumulative_difficulty_top64") (boost_uint64 cumulative_difficulty_top64)
        nil_value
        (entry (codes "current_height") (boost_uint64 height) nil_value (
          entry (codes "top_id") (boost_hash hash) nil_value
            (entry (codes "top_version") (boost_uint8 top_version) nil_value no_entries))))

abbrev pub request_entries : RequestTimedSync → Entries
request_entries r =
    let data' = r.payload_data in
    entry (codes "payload_data") (section (sync_entries data'.current_height data'.top_id))
      nil_value no_entries

unfoldable pub request_bytes : RequestTimedSync → Result Error Bytes
request_bytes r = storage_bytes (request_entries r)

abbrev pub set_difficulty : Value → CoreSyncData → Result Error CoreSyncData
set_difficulty v d = do n ← as_uint64 v; ok (record d { difficulty = n })

abbrev pub set_difficulty_top64 : Value → CoreSyncData → Result Error CoreSyncData
set_difficulty_top64 v d = do n ← as_uint64 v; ok (record d { difficulty_top64 = n })

abbrev pub set_current_height : Value → CoreSyncData → Result Error CoreSyncData
set_current_height v d = do n ← as_uint64 v; ok (record d { current_height = n })

abbrev pub set_top_id : Value → CoreSyncData → Result Error CoreSyncData
set_top_id v d = do text ← as_string v; ok (record d { top_id = text })

abbrev pub set_top_version : Value → CoreSyncData → Result Error CoreSyncData
set_top_version v d = do n ← as_uint8 v; ok (record d { version = n })

-- The function `payload_data` of the source, on the record that it fills.
unfoldable pub sync_fields : Entries → CoreSyncData → Result Error CoreSyncData
sync_fields no_entries d = ok d
sync_fields (entry name s v rest) d = do
  d ←
      if bytes_eq name (codes "cumulative_difficulty")
      then set_difficulty v d
      else if bytes_eq name (codes "cumulative_difficulty_top64")
      then set_difficulty_top64 v d
      else if bytes_eq name (codes "current_height")
      then set_current_height v d
      else if bytes_eq name (codes "top_id")
      then set_top_id v d
      else if bytes_eq name (codes "top_version")
      then set_top_version v d
      else ok d
  sync_fields rest d

abbrev pub no_peer : PeerListEntryBase
no_peer = record {
  adr = record { ip = []; port = 0 };
  id = 0;
  last_seen = pos 0;
  pruning_seed = 0;
  rpc_port = 0;
  rpc_credits_per_hash = 0;
}

-- `if peer.Ip != "" && peer.Port != 0`
abbrev pub keep_adr : Bytes → ℕ → PeerListEntryBase → PeerListEntryBase
keep_adr ip port p =
    let peer : Peer = record { ip = ip; port = port } in
    if not (length ip == 0) && not (port == 0) then record p { adr = peer } else p

abbrev pub one_addr : Value → PeerListEntryBase → Result Error PeerListEntryBase
one_addr v p = do
  fields ← as_entries v
  (ip, port) ← addr_fields fields [] 0
  ok (keep_adr ip port p)

-- `for _, addrField := range entry2.Entries()`
unfoldable pub adr_fields : Entries → PeerListEntryBase → Result Error PeerListEntryBase
adr_fields no_entries p = ok p
adr_fields (entry name s v rest) p = do
  p ← if bytes_eq name (codes "addr") then one_addr v p else ok p
  adr_fields rest p

abbrev pub set_adr : Value → PeerListEntryBase → Result Error PeerListEntryBase
set_adr v p = do fields ← as_entries v; adr_fields fields p

abbrev pub set_peer_id : Value → PeerListEntryBase → Result Error PeerListEntryBase
set_peer_id v p = do n ← as_uint64 v; ok (record p { id = n })

abbrev pub set_pruning_seed : Value → PeerListEntryBase → Result Error PeerListEntryBase
set_pruning_seed v p = do n ← as_uint32 v; ok (record p { pruning_seed = n })

-- `for _, entry2 := range entry.Entries()`
unfoldable pub peer_fields : Entries → PeerListEntryBase → Result Error PeerListEntryBase
peer_fields no_entries p = ok p
peer_fields (entry name s v rest) p = do
  p ←
      if bytes_eq name (codes "adr")
      then set_adr v p
      else if bytes_eq name (codes "id")
      then set_peer_id v p
      else if bytes_eq name (codes "pruning_seed")
      then set_pruning_seed v p
      else ok p
  peer_fields rest p

-- The function `local_peerlist_new` of the source.
unfoldable pub peer_list : Entries → Result Error (List PeerListEntryBase)
peer_list no_entries = ok []
peer_list (entry name s v rest) = do
  fields ← as_entries v
  p ← peer_fields fields no_peer
  more ← peer_list rest
  ok (p ∷ more)

abbrev pub set_payload_data : Value → ResponseTimedSync → Result Error ResponseTimedSync
set_payload_data v r = do
  fields ← as_entries v
  d ← sync_fields fields no_sync_data
  ok (record r { payload_data = d })

abbrev pub set_peerlist : Bytes → Value → ResponseTimedSync → Result Error ResponseTimedSync
set_peerlist name v r = do
  fields ← as_entries v
  ps ← peer_list fields
  ok (record r { local_peerlist_new = ps; local_peerlist_new_e = (name, v) })

unfoldable pub response_fields : Entries → ResponseTimedSync → Result Error ResponseTimedSync
response_fields no_entries r = ok r
response_fields (entry name s v rest) r = do
  r ←
      if bytes_eq name (codes "payload_data")
      then set_payload_data v r
      else if bytes_eq name (codes "local_peerlist_new")
      then set_peerlist name v r
      else ok r
  response_fields rest r

unfoldable pub new_response_timed_sync : Entries → Result Error ResponseTimedSync
new_response_timed_sync storage = response_fields storage (record {
  payload_data = no_sync_data;
  local_peerlist_new = [];
  local_peerlist_new_e = ([], nil_value);
})
