-- ===== src/Levin/Node/Total.antt =====
-- Reading a node from any entries ends.
use go_monero.Base.{holds, Ensures-weaken, Finishes, Finishes-bind, Finishes-if}
use go_monero.Base.Bytes.{codes, bytes_eq}
use go_monero.Levin.Entry.{Entries, no_entries, entry}
use go_monero.Levin.Entry.Laws.{
  as_uint8-Finishes, as_uint16-Finishes, as_uint64-Finishes, as_entries-Finishes,
}
use go_monero.Levin.Node.{Node, node_fields, payload_fields, node_loop, new_node_from_entries}
use go_monero.Levin.Node.Peers.{parse_peer_list-Ensures}

node_fields-Finishes : (es : Entries) (lpl : Node) → Finishes (node_fields es lpl)
unfolding node_fields
node_fields-Finishes no_entries lpl = holds tt
node_fields-Finishes (entry name s v rest) lpl =
    Finishes-bind
      (Finishes-if (bytes_eq name (codes "rpc_port"))
        (Finishes-bind (as_uint16-Finishes v) λ _. holds tt)
        (Finishes-if (bytes_eq name (codes "peer_id"))
          (Finishes-bind (as_uint64-Finishes v) λ _. holds tt) (holds tt)))
      λ l. node_fields-Finishes rest l

payload_fields-Finishes : (es : Entries) (lpl : Node) → Finishes (payload_fields es lpl)
unfolding payload_fields
payload_fields-Finishes no_entries lpl = holds tt
payload_fields-Finishes (entry name s v rest) lpl =
    Finishes-bind
      (Finishes-if (bytes_eq name (codes "current_height"))
        (Finishes-bind (as_uint64-Finishes v) λ _. holds tt)
        (Finishes-if (bytes_eq name (codes "top_version"))
          (Finishes-bind (as_uint8-Finishes v) λ _. holds tt) (holds tt)))
      λ l. payload_fields-Finishes rest l

node_loop-Finishes : (es : Entries) (lpl : Node) → Finishes (node_loop es lpl)
unfolding node_loop
node_loop-Finishes no_entries lpl = holds tt
node_loop-Finishes (entry name s v rest) lpl =
    Finishes-bind
      (Finishes-if (bytes_eq name (codes "node_data"))
        (Finishes-bind (as_entries-Finishes v) λ es. node_fields-Finishes es lpl) (holds tt))
      λ l1.
        Finishes-bind
          (Finishes-if (bytes_eq name (codes "payload_data"))
            (Finishes-bind (as_entries-Finishes v) λ es. payload_fields-Finishes es l1) (holds tt))
          λ l2.
            Finishes-bind
              (Finishes-if (bytes_eq name (codes "local_peerlist_new"))
                (Finishes-bind (Ensures-weaken (parse_peer_list-Ensures v) λ _ _. tt) λ _. holds tt)
                (holds tt))
              λ l3. node_loop-Finishes rest l3

pub new_node_from_entries-Finishes : (es : Entries) → Finishes (new_node_from_entries es)
unfolding new_node_from_entries
new_node_from_entries-Finishes es = node_loop-Finishes es _
