-- ===== src/Levin/Conn.antt =====
-- A net.Conn as the client uses it: Write, io.ReadFull and io.CopyN.
pub mod Laws
use go_monero.Base.{
  ℕ, ◌-◌, Bool, [], ◌++◌, length, take, drop, leb, if◌then◌else◌, Option, none, some,
}
use go_monero.Base.Bytes.{Bytes}
use go_monero.Base.Int.{ℤ, pos, negsuc}

-- The bytes that the peer has sent before it closed, those that it was sent, and how many more it
-- takes before a write fails.
pub record Conn : Type 0 where
  pub incoming : Bytes
  pub outgoing : Bytes
  pub room : ℕ

-- `_, err := c.conn.Write(b)`: whether `err` is nil. A write that fails has sent the first bytes.
unfoldable pub write : Bytes → Conn → Bool × Conn
write b c = (
  leb (length b) c.room,
  record c { outgoing = c.outgoing ++ take c.room b; room = c.room - length b },
)

-- `io.ReadFull(c.conn, b)` with `len(b)` = n. A read that fails has taken what there was.
unfoldable pub read_full : ℕ → Conn → Option Bytes × Conn
read_full n c = (
  if leb n (length c.incoming) then some (take n c.incoming) else none,
  record c { incoming = drop n c.incoming },
)

-- `io.CopyN(dest, c.conn, n)`: nothing is copied, and there is no error, for a negative `n`.
unfoldable pub copy_n : ℤ → Conn → Option Bytes × Conn
unfolding read_full
copy_n (pos n) c = read_full n c
copy_n (negsuc n) c = (some [], c)
