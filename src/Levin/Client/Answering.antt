-- ===== src/Levin/Client/Answering.antt =====
-- The rounds of Handshake: messages of other commands are dropped until the answer comes.
use go_monero.Base.{
  ℕ, zero, suc, ◌+◌, ◌≤◌, ◌<◌, ◌^◌, ◌≡◌, ◌≢◌, refl, ◌∙◌, not, List, [], ◌∷◌, ◌++◌, append_assoc,
  length, ◌-◌, All, arith, ◌==◌, lt→ltb, if◌then◌else◌, ok, Option, some, length-append,
}
use go_monero.Base.Bytes.{Bytes}
use go_monero.Levin.Header.{Header, header_bytes, command_handshake, new_request_header}
use go_monero.Levin.Storage.{storage_bytes}
use go_monero.Levin.Conn.{Conn, copy_n}
use go_monero.Levin.Conn.Laws.{read_full-front, write-room}
use go_monero.Levin.Client.{
  copied, answer_or_again, await_body, await_from, await, node_of, handshake_entries,
  handshake_with, handshake_from, handshake,
}
use go_monero.Levin.Client.Sending.{length-header_bytes}
use go_monero.Levin.Client.Receiving.{IsAccepted, read_header_front}

-- A header that the parser takes, with the body that it announces.
pub record IsMessage (h : Header) (body : Bytes) : Type 0 where
  pub accepted : IsAccepted h
  pub announced : h.payload_length ≡ length body
  pub fits : length body < 2 ^ 63

-- A message that does not answer a handshake.
abbrev pub IsOther : Header × Bytes → Type 0
IsOther (h, body) = IsMessage h body × (h.command ≢ command_handshake)

-- The messages on the wire, one after the other.
unfoldable pub wire : List (Header × Bytes) → Bytes
wire [] = []
wire ((h, body) ∷ ms) = header_bytes h ++ (body ++ wire ms)

-- With no body, nothing is read.
no_body :
    (body rest : Bytes) (c : Conn)
    → ◌≡◌ {A = Option Bytes × Conn}
        (if not (length body == 0)
          then (some body, record c { incoming = rest })
          else (some [], record c { incoming = body ++ rest }))
        (some body, record c { incoming = rest })
no_body [] rest c = refl
no_body (b ∷ bs) rest c = ground arith

copied-front :
    (h : Header) (body rest : Bytes) (c : Conn)
    → IsMessage h body
    → copied h (record c { incoming = body ++ rest }) ≡ (some body, record c { incoming = rest })
unfolding copied copy_n
copied-front h body rest c m =
    rw
      (
        m.announced,
        lt→ltb (length body) (2 ^ 63) m.fits,
        read_full-front (length body) body rest c refl,
      )
      (no_body body rest c)

one_round :
    (spare : Bytes) (f : ℕ) (h : Header) (body rest : Bytes) (c : Conn)
    → IsMessage h body
    → await spare (suc f) (record c { incoming = header_bytes h ++ (body ++ rest) })
      ≡ answer_or_again spare (λ c1. await spare f c1) h (some body, record c { incoming = rest })
unfolding await await_from await_body
one_round spare f h body rest c m =
    let (r, p) = read_header_front h (body ++ rest) c m.accepted in
    rw (r, p, copied-front h body rest c m) refl

length-wire : (ms : List (Header × Bytes)) → length ms ≤ length (wire ms)
unfolding wire
length-wire [] = omega arith
length-wire ((h, body) ∷ ms) =
    simp length-append (omega (arith, length-header_bytes h, length-wire ms))

-- Any messages of other commands, then a message that answers a handshake: the rounds end with
-- what its body is parsed to, and the connection stands behind it.
pub await-answer :
    (spare : Bytes) (others : List (Header × Bytes)) (h : Header) (body rest : Bytes) (c : Conn)
    (f : ℕ)
    → All IsOther others
    → IsMessage h body
    → h.command ≡ command_handshake
    → length others < f
    → await spare f (record c { incoming = wire others ++ (header_bytes h ++ (body ++ rest)) })
      ≡ (node_of spare body, record c { incoming = rest })
unfolding wire answer_or_again
await-answer spare others h body rest c zero o m e l = absurd (omega arith)
await-answer spare [] h body rest c (suc f) o m e l =
    one_round spare f h body rest c m ∙ ground arith
await-answer spare ((h1, body1) ∷ others) h body rest c (suc f) ((m1, ne), o) m e l =
    let behind : Bytes = wire others ++ (header_bytes h ++ (body ++ rest)) in
    let again : answer_or_again spare (λ c1. await spare f c1) h1
          (some body1, record c { incoming = behind })
        ≡ await spare f (record c { incoming = behind }) =
      ground arith in
    rw
      (
        append_assoc (header_bytes h1) (body1 ++ wire others) (header_bytes h ++ (body ++ rest)),
        append_assoc body1 (wire others) (header_bytes h ++ (body ++ rest)),
      )
      (one_round spare f h1 body1 behind c m1
        ∙ (again ∙ await-answer spare others h body rest c f o m e (omega arith)))

abbrev request_head : Bytes → Bytes
request_head payload = header_bytes (new_request_header command_handshake (length payload))

length-request_head : (payload : Bytes) → length (request_head payload) ≡ 33
length-request_head payload = length-header_bytes _

-- On a connection with room for its request, and on which messages arrive with headers that the parser
-- takes and bodies of any length below 2^63 (also over 100MB, which the doc comment of Header says are
-- rejected), Handshake writes the request and drops messages of other commands until the answer comes:
-- then it returns what the answer is parsed to, a node, an error or a panic, whatever its buffer holds
-- behind the body, and has read nothing behind the answer.
pub handshake-answer :
    (spare : Bytes) (height : ℕ) (hash : Bytes) (peer_id : ℕ) (payload : Bytes)
    (others : List (Header × Bytes)) (h : Header) (body rest : Bytes) (c : Conn)
    → storage_bytes (handshake_entries height hash peer_id) ≡ ok payload
    → 33 + length payload ≤ c.room
    → All IsOther others
    → IsMessage h body
    → h.command ≡ command_handshake
    → handshake spare height hash peer_id
        (record c { incoming = wire others ++ (header_bytes h ++ (body ++ rest)) })
      ≡ (
        node_of spare body,
        record {
          incoming = rest;
          outgoing = c.outgoing ++ (request_head payload ++ payload);
          room = c.room - (33 + length payload);
        },
      )
unfolding handshake handshake_from handshake_with
handshake-answer spare height hash peer_id payload others h body rest c e room o m cmd =
    let incoming : Bytes = wire others ++ (header_bytes h ++ (body ++ rest)) in
    let first : Conn = record c { incoming = incoming } in
    let head : Bytes = request_head payload in
    let second : Conn = record first {
      outgoing = c.outgoing ++ head;
      room = c.room - length head;
    } in
    let third : Conn = record second {
      outgoing = second.outgoing ++ payload;
      room = second.room - length payload;
    } in
    let outgoing' : (c.outgoing ++ head) ++ payload ≡ c.outgoing ++ (head ++ payload) =
      append_assoc c.outgoing head payload in
    let room' : c.room - length head - length payload ≡ c.room - (33 + length payload) =
      omega (arith, length-request_head payload) in
    let long : length others < suc (length incoming) =
      omega (
        arith,
        length-wire others,
        length-append (wire others) (header_bytes h ++ (body ++ rest)),
      ) in
    rw
      (
        e,
        write-room head first (omega (arith, length-request_head payload)),
        write-room payload second (omega (arith, length-request_head payload)),
      )
      (await-answer spare others h body rest third (suc (length incoming)) o m cmd long
        ∙ rw (outgoing', room') refl)
