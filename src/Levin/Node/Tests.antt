-- ===== src/Levin/Node/Tests.antt =====
-- A list of peers, and the text of addresses.
use go_monero.Base.{◌≡◌, ◌≢◌, refl, [], ◌∷◌, ok, out_of_fuel}
use go_monero.Base.Bytes.{codes, bytes_eq}
use go_monero.Base.Text.{ip_string}
use go_monero.Levin.Entry.{
  Value, uint16, uint32, object, unset, no_entries, entry, as_entries, as_uint16, as_uint32,
}
use go_monero.Levin.Node.{
  Peers, put, ipzify, addr, addr_fields, addr_loop, adr_loop, peer_loop, parse_peer_list,
}
use go_monero.Levin.Node.Peers.{ArePeers, parse_peer_list-ArePeers}

-- One peer, at 1.2.3.4:18080.
abbrev one : Value
one = object (
    entry [] unset
      (object (
        entry (codes "adr") unset
          (object (
            entry (codes "addr") unset
              (object (
                entry (codes "m_ip") unset (uint32 0x04030201)
                  (entry (codes "m_port") unset (uint16 18080) no_entries)))
              no_entries))
          no_entries))
      no_entries)

one_read :
    parse_peer_list one
    ≡ ok ((codes "1.2.3.4:18080", record { ip = codes "1.2.3.4"; port = 18080 }) ∷ [])
unfolding parse_peer_list peer_loop adr_loop addr_loop addr_fields as_entries as_uint16 as_uint32
    bytes_eq ipzify ip_string addr put
one_read = refl

v6_read :
    ip_string (0x20 ∷ 0x01 ∷ 0x0d ∷ 0xb8 ∷ 0 ∷ 0 ∷ 0 ∷ 0 ∷ 0 ∷ 0 ∷ 0 ∷ 1 ∷ 0 ∷ 0 ∷ 0 ∷ 0x2a ∷ [])
    ≡ codes "2001:db8::1:0:2a"
unfolding ip_string
v6_read = refl

v4_in_v6_read :
    ip_string (0 ∷ 0 ∷ 0 ∷ 0 ∷ 0 ∷ 0 ∷ 0 ∷ 0 ∷ 0 ∷ 0 ∷ 0xff ∷ 0xff ∷ 127 ∷ 0 ∷ 0 ∷ 1 ∷ [])
    ≡ codes "127.0.0.1"
unfolding ip_string
v4_in_v6_read = refl

parse_peer_list-ArePeers_example :
    (parse_peer_list one ≢ out_of_fuel) × ((ps : Peers) → parse_peer_list one ≡ ok ps → ArePeers ps)
parse_peer_list-ArePeers_example = parse_peer_list-ArePeers one
