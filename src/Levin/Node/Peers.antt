-- ===== src/Levin/Node/Peers.antt =====
-- The map of peers that ParsePeerList builds.
use mathlib.Core.Path.{subst}
use go_monero.Base.{
  ℕ, ◌<◌, ◌≡◌, ◌≢◌, refl, ◌∙◌, false, not, ◌&&◌, [], ◌∷◌, length, All, arith, ◌==◌, if◌then◌else◌,
  if-elim, Result, ok, Ensures, Finishes, Finishes-bind, Finishes-if, holds, Ensures-ok,
  Ensures-ne-out_of_fuel, Ensures-bind, Ensures-if, out_of_fuel,
}
use go_monero.Base.Bytes.{Bytes, codes, bytes_eq, bytes_eq→eq, bytes_eq_sym}
use go_monero.Levin.Error.{Error}
use go_monero.Levin.Entry.{Value, Entries, no_entries, entry}
use go_monero.Levin.Entry.Laws.{
  as_string-Finishes, as_uint16-Finishes, as_uint32-Finishes, as_entries-Finishes,
}
use go_monero.Levin.Node.{
  Peer, Peers, addr, put, addr_fields, add_peer, one_peer, addr_loop, one_adr, adr_loop, peer_loop,
  parse_peer_list,
}

-- A pair of the map: the key is the peer's address, which has a host and a port.
abbrev pub IsPeer : Bytes × Peer → Type 0
IsPeer (key, p) = (key ≡ addr p) × (0 < length p.ip) × (0 < p.port)

-- No other pair has the key.
abbrev pub IsFresh : Bytes → Peers → Type 0
IsFresh key = All (λ (k, p). bytes_eq k key ≡ false)

-- A map: every pair is a peer, and no key comes twice.
unfoldable pub AreDistinct : Peers → Type 0
AreDistinct [] = Unit {0}
AreDistinct ((k, p) ∷ ps) = IsFresh k ps × AreDistinct ps

abbrev pub ArePeers : Peers → Type 0
ArePeers ps = All IsPeer ps × AreDistinct ps

put-All :
    (key : Bytes) (peer : Peer) (ps : Peers)
    → IsPeer (key, peer)
    → All IsPeer ps
    → All IsPeer (put key peer ps)
unfolding put
put-All key peer [] h a = (h, tt)
put-All key peer ((k, p) ∷ ps) h (q, a) =
    if-elim (All IsPeer) (bytes_eq k key) (λ _. (h, a)) (λ _. (q, put-All key peer ps h a))

put-IsFresh :
    (other key : Bytes) (peer : Peer) (ps : Peers)
    → bytes_eq key other ≡ false
    → IsFresh other ps
    → IsFresh other (put key peer ps)
unfolding put
put-IsFresh other key peer [] ne f = (ne, tt)
put-IsFresh other key peer ((k, p) ∷ ps) ne (g, f) =
    if-elim (IsFresh other) (bytes_eq k key) (λ _. (ne, f))
      (λ _. (g, put-IsFresh other key peer ps ne f))

put-AreDistinct :
    (key : Bytes) (peer : Peer) (ps : Peers) → AreDistinct ps → AreDistinct (put key peer ps)
unfolding put AreDistinct
put-AreDistinct key peer [] d = (tt, tt)
put-AreDistinct key peer ((k, p) ∷ ps) (f, d) =
    if-elim AreDistinct (bytes_eq k key)
      (λ same. (subst (λ t. IsFresh t ps) (bytes_eq→eq k key same) f, d))
      (λ differ.
        (put-IsFresh k key peer ps (bytes_eq_sym key k ∙ differ) f, put-AreDistinct key peer ps d))

add_peer-ArePeers :
    (ip : Bytes) (port : ℕ) (ps : Peers) → ArePeers ps → ArePeers (add_peer ip port ps)
add_peer-ArePeers ip port ps (a, d) =
    let peer : Peer = record { ip = ip; port = port } in
    if-elim ArePeers (not (length ip == 0) && not (port == 0))
      (λ full. (
        put-All (addr peer) peer ps (refl, ground arith, ground arith) a,
        put-AreDistinct (addr peer) peer ps d,
      ))
      (λ _. (a, d))

addr_fields-Finishes : (es : Entries) (ip : Bytes) (port : ℕ) → Finishes (addr_fields es ip port)
unfolding addr_fields
addr_fields-Finishes no_entries ip port = holds tt
addr_fields-Finishes (entry name s v rest) ip port =
    Finishes-bind
      (Finishes-if (bytes_eq name (codes "m_ip"))
        (Finishes-bind (as_uint32-Finishes v) λ _. holds tt) (holds tt))
      λ ip1.
        Finishes-bind
          (Finishes-if (bytes_eq name (codes "m_port")) (as_uint16-Finishes v) (holds tt))
          λ port1.
            Finishes-bind
              (Finishes-if (bytes_eq name (codes "addr"))
                (Finishes-bind (as_string-Finishes v) λ _. holds tt) (holds tt))
              λ ip2. addr_fields-Finishes rest ip2 port1

-- One loop of the parser keeps the map a map.
abbrev Keeps : (Peers → Result Error Peers) → Type 0
Keeps step = (ps : Peers) → ArePeers ps → Ensures ArePeers (step ps)

one_peer-Keeps : (v : Value) → Keeps (one_peer v)
one_peer-Keeps v ps h = Ensures-bind (as_entries-Finishes v) λ fields _.
    Ensures-bind (addr_fields-Finishes fields [] 0)
      λ (ip, port) _. holds (add_peer-ArePeers ip port ps h)

-- An entry of another name is passed over.
named-Keeps :
    (name wanted : Bytes) (step : Peers → Result Error Peers)
    → Keeps step
    → Keeps (λ ps. if bytes_eq name wanted then step ps else ok ps)
named-Keeps name wanted step k ps h = Ensures-if (bytes_eq name wanted) (λ _. k ps h) (λ _. holds h)

addr_loop-Keeps : (es : Entries) → Keeps (addr_loop es)
unfolding addr_loop
addr_loop-Keeps no_entries ps h = holds h
addr_loop-Keeps (entry name s v rest) ps h =
    Ensures-bind (named-Keeps name (codes "addr") (one_peer v) (one_peer-Keeps v) ps h)
      λ ps1 h1. addr_loop-Keeps rest ps1 h1

one_adr-Keeps : (v : Value) → Keeps (one_adr v)
one_adr-Keeps v ps h = Ensures-bind (as_entries-Finishes v) λ es _. addr_loop-Keeps es ps h

adr_loop-Keeps : (es : Entries) → Keeps (adr_loop es)
unfolding adr_loop
adr_loop-Keeps no_entries ps h = holds h
adr_loop-Keeps (entry name s v rest) ps h =
    Ensures-bind (named-Keeps name (codes "adr") (one_adr v) (one_adr-Keeps v) ps h)
      λ ps1 h1. adr_loop-Keeps rest ps1 h1

peer_loop-Keeps : (es : Entries) → Keeps (peer_loop es)
unfolding peer_loop
peer_loop-Keeps no_entries ps h = holds h
peer_loop-Keeps (entry name s v rest) ps h =
    Ensures-bind (as_entries-Finishes v)
      λ es _. Ensures-bind (adr_loop-Keeps es ps h) λ ps1 h1. peer_loop-Keeps rest ps1 h1

pub parse_peer_list-Ensures : (v : Value) → Ensures ArePeers (parse_peer_list v)
unfolding parse_peer_list AreDistinct
parse_peer_list-Ensures v =
    Ensures-bind (as_entries-Finishes v) λ es _. peer_loop-Keeps es [] (tt, tt)

-- ParsePeerList ends, and the map that it returns has each peer under its own address, a host and a
-- port with every peer, and no address twice.
pub parse_peer_list-ArePeers :
    (v : Value)
    → (parse_peer_list v ≢ out_of_fuel) × ((ps : Peers) → parse_peer_list v ≡ ok ps → ArePeers ps)
parse_peer_list-ArePeers v = (
  Ensures-ne-out_of_fuel (parse_peer_list-Ensures v),
  λ ps e. Ensures-ok (parse_peer_list-Ensures v) e,
)
