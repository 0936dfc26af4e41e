-- ===== src/Levin/Client/Rounds.antt =====
-- The rounds of Handshake end on any bytes that the peer may send.
use go_monero.Base.{ℕ, ◌+◌, ◌≤◌, ◌≡◌, length, Option, some, none, Finishes}
use go_monero.Base.Bytes.{Bytes, IsBytes}
use go_monero.Levin.Error.{Error}
use go_monero.Levin.Header.{Header}
use go_monero.Levin.Node.{Node}
use go_monero.Levin.Conn.{Conn}
use go_monero.Levin.Client.{Outcome}

-- A read of `n` bytes that does not fail takes them off the connection.
abbrev Took : ℕ → Conn → Option Bytes × Conn → Type 0
Took n c (none, c1) = Unit {0}
Took n c (some b, c1) =
    (length b ≡ n) × IsBytes b × IsBytes c1.incoming × (n + length c1.incoming ≤ length c.incoming)

-- The same, with the number of bytes left out.
abbrev Leaves : Conn → Option Bytes × Conn → Type 0
Leaves c (none, c1) = Unit {0}
Leaves c (some b, c1) = IsBytes b × IsBytes c1.incoming × (length c1.incoming ≤ length c.incoming)

-- The later rounds end, on a connection with at most `left` bytes to come.
abbrev Ends : (Conn → Outcome Node) → ℕ → Type 0
Ends again left = (c : Conn) → IsBytes c.incoming → length c.incoming ≤ left → Finishes (again c).0
