-- ===== src/Levin/Node.antt =====
-- What a peer tells of itself and of others: levin/node.go.
pub mod Peers
pub mod Total
mod Tests
use go_monero.Base.{
  ℕ, ◌/◌, ◌%◌, ◌^◌, not, ◌&&◌, List, [], ◌∷◌, ◌++◌, length, ◌==◌, if◌then◌else◌, Result, ok, ◌>>=◌,
}
use go_monero.Base.Bytes.{Bytes, codes, bytes_eq}
use go_monero.Base.Text.{decimal, ip_string}
use go_monero.Levin.Error.{Error}
use go_monero.Levin.Entry.{
  Value, Entries, no_entries, entry, as_string, as_uint8, as_uint16, as_uint32, as_uint64,
  as_entries,
}

pub record Peer : Type 0 where
  pub ip : Bytes
  pub port : ℕ

-- A map[string]*Peer, as the pairs in the order of their first insertion.
abbrev pub Peers : Type 0
Peers = List (Bytes × Peer)

pub record Node : Type 0 where
  pub peers : Peers
  pub id : ℕ
  pub rpc_port : ℕ
  pub current_height : ℕ
  pub top_version : ℕ

abbrev pub get_peers : Node → Peers
get_peers l = l.peers

-- `fmt.Sprintf("%s:%d", p.Ip, p.Port)`
unfoldable pub addr : Peer → Bytes
addr p = p.ip ++ (b':' ∷ decimal p.port)

-- `peers[key] = peer`.
unfoldable pub put : Bytes → Peer → Peers → Peers
put key peer [] = (key, peer) ∷ []
put key peer ((k, p) ∷ ps) =
    let more = put key peer ps in if bytes_eq k key then (key, peer) ∷ ps else (k, p) ∷ more

-- The four bytes of the number, lowest first.
unfoldable pub ipzify : ℕ → Bytes
ipzify ip =
    ip_string ((ip % 256) ∷ (ip / 2 ^ 8 % 256) ∷ (ip / 2 ^ 16 % 256) ∷ (ip / 2 ^ 24 % 256) ∷ [])

abbrev pub ip_of_uint32 : Value → Result Error Bytes
ip_of_uint32 v = do ip ← as_uint32 v; ok (ipzify ip)

abbrev pub ip_of_string : Value → Result Error Bytes
ip_of_string v = do s ← as_string v; ok (ip_string s)

-- `for _, field := range fields`, with the two variables that it sets.
unfoldable pub addr_fields : Entries → Bytes → ℕ → Result Error (Bytes × ℕ)
addr_fields no_entries ip port = ok (ip, port)
addr_fields (entry name s v rest) ip port = do
  ip ← if bytes_eq name (codes "m_ip") then ip_of_uint32 v else ok ip
  port ← if bytes_eq name (codes "m_port") then as_uint16 v else ok port
  ip ← if bytes_eq name (codes "addr") then ip_of_string v else ok ip
  addr_fields rest ip port

-- `if ip != "" && port != 0`
abbrev pub add_peer : Bytes → ℕ → Peers → Peers
add_peer ip port peers =
    let peer : Peer = record { ip = ip; port = port } in
    if not (length ip == 0) && not (port == 0) then put (addr peer) peer peers else peers

abbrev pub one_peer : Value → Peers → Result Error Peers
one_peer v peers = do
  fields ← as_entries v
  (ip, port) ← addr_fields fields [] 0
  ok (add_peer ip port peers)

-- `for _, addrField := range addr`
unfoldable pub addr_loop : Entries → Peers → Result Error Peers
addr_loop no_entries peers = ok peers
addr_loop (entry name s v rest) peers = do
  peers ← if bytes_eq name (codes "addr") then one_peer v peers else ok peers
  addr_loop rest peers

abbrev pub one_adr : Value → Peers → Result Error Peers
one_adr v peers = do addr ← as_entries v; addr_loop addr peers

-- `for _, adr := range peerListAdr`
unfoldable pub adr_loop : Entries → Peers → Result Error Peers
adr_loop no_entries peers = ok peers
adr_loop (entry name s v rest) peers = do
  peers ← if bytes_eq name (codes "adr") then one_adr v peers else ok peers
  adr_loop rest peers

-- `for _, peer := range peerList`
unfoldable pub peer_loop : Entries → Peers → Result Error Peers
peer_loop no_entries peers = ok peers
peer_loop (entry name s v rest) peers = do
  peer_list_adr ← as_entries v
  peers ← adr_loop peer_list_adr peers
  peer_loop rest peers

unfoldable pub parse_peer_list : Value → Result Error Peers
parse_peer_list v = do peer_list ← as_entries v; peer_loop peer_list []

abbrev pub set_rpc_port : Value → Node → Result Error Node
set_rpc_port v lpl = do n ← as_uint16 v; ok (record lpl { rpc_port = n })

abbrev pub set_id : Value → Node → Result Error Node
set_id v lpl = do n ← as_uint64 v; ok (record lpl { id = n })

abbrev pub set_height : Value → Node → Result Error Node
set_height v lpl = do n ← as_uint64 v; ok (record lpl { current_height = n })

abbrev pub set_version : Value → Node → Result Error Node
set_version v lpl = do n ← as_uint8 v; ok (record lpl { top_version = n })

-- The switch of `node_data`, and that of `payload_data`.
unfoldable pub node_fields : Entries → Node → Result Error Node
node_fields no_entries lpl = ok lpl
node_fields (entry name s v rest) lpl = do
  lpl ←
      if bytes_eq name (codes "rpc_port")
      then set_rpc_port v lpl
      else if bytes_eq name (codes "peer_id")
      then set_id v lpl
      else ok lpl
  node_fields rest lpl

unfoldable pub payload_fields : Entries → Node → Result Error Node
payload_fields no_entries lpl = ok lpl
payload_fields (entry name s v rest) lpl = do
  lpl ←
      if bytes_eq name (codes "current_height")
      then set_height v lpl
      else if bytes_eq name (codes "top_version")
      then set_version v lpl
      else ok lpl
  payload_fields rest lpl

abbrev pub set_node_data : Value → Node → Result Error Node
set_node_data v lpl = do fields ← as_entries v; node_fields fields lpl

abbrev pub set_payload_data : Value → Node → Result Error Node
set_payload_data v lpl = do fields ← as_entries v; payload_fields fields lpl

abbrev pub set_peers : Value → Node → Result Error Node
set_peers v lpl = do ps ← parse_peer_list v; ok (record lpl { peers = ps })

unfoldable pub node_loop : Entries → Node → Result Error Node
node_loop no_entries lpl = ok lpl
node_loop (entry name s v rest) lpl = do
  lpl ← if bytes_eq name (codes "node_data") then set_node_data v lpl else ok lpl
  lpl ← if bytes_eq name (codes "payload_data") then set_payload_data v lpl else ok lpl
  lpl ← if bytes_eq name (codes "local_peerlist_new") then set_peers v lpl else ok lpl
  node_loop rest lpl

unfoldable pub new_node_from_entries : Entries → Result Error Node
new_node_from_entries entries =
    node_loop entries
      (record { peers = []; id = 0; rpc_port = 0; current_height = 0; top_version = 0 })
