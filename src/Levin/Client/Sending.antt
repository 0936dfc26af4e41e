-- ===== src/Levin/Client/Sending.antt =====
-- What SendRequest and SendResponse put on the connection.
use native.Mathlib.Decide.{dec_le}
use go_monero.Base.{
  ℕ, ◌+◌, ◌-◌, ◌≡◌, ◌++◌, append_assoc, length, take, arith, leb, if◌then◌else◌, Result, ok, err,
}
use go_monero.Base.Bytes.{Bytes}
use go_monero.Levin.Header.{Header, header_bytes}
use go_monero.Levin.Header.RoundTrip.{layout, length-layout}
use go_monero.Levin.Conn.{Conn, write}
use go_monero.Levin.Conn.Laws.{take_all, take_empty, take_within, take_beyond}
use go_monero.Levin.Client.{ClientError, write_header, write_payload, send}

pub length-header_bytes : (h : Header) → length (header_bytes h) ≡ 33
unfolding header_bytes layout
length-header_bytes h = length-layout (if h.expects_response then 1 else 0) h

-- The result, from the sizes alone.
unfoldable pub sending : ℕ → ℕ → Result ClientError (Unit {0})
sending room len =
    if leb (33 + len) room
    then ok tt
    else if leb 33 room
    then err write_payload
    else err write_header

-- Sending puts the first bytes of the header and the payload on the connection, as many as it
-- takes. It succeeds if it takes them all; otherwise the error says which of the two did not fit.
pub send-message :
    (h : Header) (payload : Bytes) (c : Conn)
    → ((send h payload c).0 ≡ sending c.room (length payload))
      × ((send h payload c).1.outgoing ≡ c.outgoing ++ take c.room (header_bytes h ++ payload))
unfolding send write sending
send-message h payload c = (
  rw (length-header_bytes h) (ground arith),
  elim (dec_le 33 c.room)
      as (λ x.
        (send h payload c).1.outgoing ≡ c.outgoing ++ take c.room (header_bytes h ++ payload)) [
          | yes fits ↦
              rw
                (
                  take_beyond c.room (header_bytes h) payload
                      (omega (arith, length-header_bytes h)),
                  length-header_bytes h,
                  take_all c.room (header_bytes h) (omega (arith, length-header_bytes h)),
                  append_assoc c.outgoing (header_bytes h) (take (c.room - 33) payload),
                )
                (ground (arith, take_empty (c.room - 33) (header_bytes h) payload))
          | no short ↦
              rw
                (
                  length-header_bytes h,
                  take_within c.room (header_bytes h) payload
                      (omega (arith, length-header_bytes h)),
                )
                (ground arith)
        ],
)
