-- ===== src/Levin/Ping.antt =====
-- The answer to a ping: levin/ping.go.
use go_monero.Base.{ℕ, [], if◌then◌else◌, Result, ok, ◌>>=◌}
use go_monero.Base.Bytes.{Bytes, codes, bytes_eq}
use go_monero.Levin.Error.{Error}
use go_monero.Levin.Entry.{Value, Entries, no_entries, entry, as_string, as_uint64}

pub record ResponsePing : Type 0 where
  pub status : Bytes
  pub id : ℕ

abbrev pub set_id : Value → ResponsePing → Result Error ResponsePing
set_id v ping = do n ← as_uint64 v; ok (record ping { id = n })

abbrev pub set_status : Value → ResponsePing → Result Error ResponsePing
set_status v ping = do text ← as_string v; ok (record ping { status = text })

unfoldable pub ping_fields : Entries → ResponsePing → Result Error ResponsePing
ping_fields no_entries ping = ok ping
ping_fields (entry name s v rest) ping = do
  ping ←
      if bytes_eq name (codes "peer_id")
      then set_id v ping
      else if bytes_eq name (codes "status")
      then set_status v ping
      else ok ping
  ping_fields rest ping

unfoldable pub new_ping_from_portable_storage : Entries → Result Error ResponsePing
new_ping_from_portable_storage store = ping_fields store (record { status = []; id = 0 })
