-- ===== src/Levin/Header/Parsing.antt =====
-- The parser on any bytes: what it accepts, what it refuses, and that it never panics.
use mathlib.Core.Path.{subst}
use go_monero.Base.{
  ℕ, ◌^◌, ◌≡◌, ◌≢◌, refl, sym, ap, ◌∙◌, false, not, [], ◌∷◌, length, take, drop, ◌==◌, arith, err,
}
use go_monero.Base.Bytes.{Bytes, IsBytes, le_bytes, with_uint, with_byte}
use go_monero.Base.Int.{to_signed, to_signed-IsSigned, to_unsigned-to_signed}
use go_monero.Levin.Error.{header_size}
use go_monero.Levin.Header.{Header, IsHeader, header_bytes, new_header_from_bytes}
use go_monero.Levin.Header.RoundTrip.{verdict, layout, parse-layout}

-- A slice of any other length is refused before anything is read.
pub new_header_from_bytes_size :
    (bytes : Bytes) → length bytes ≢ 33 → new_header_from_bytes bytes ≡ err header_size
unfolding new_header_from_bytes
new_header_from_bytes_size bytes h = ground arith

-- Every 33 bytes are the fields of a header, with some byte in the place of the flag.
abbrev Fields : Bytes → Type 0
Fields bytes = (h : Header) × (b : ℕ) × IsHeader h × (bytes ≡ layout b h)

empty : (xs : Bytes) → length xs ≡ 0 → xs ≡ []
empty [] h = refl
empty (x ∷ xs) h = absurd (omega arith)

all-Fields : (bytes : Bytes) → IsBytes bytes → length bytes ≡ 33 → Fields bytes
unfolding layout
all-Fields bytes hb len = with_uint 8 bytes hb (omega arith) λ signature r1 e1 l1 h1 n1.
    with_uint 8 r1 h1 (omega arith) λ size r2 e2 l2 h2 n2.
      with_byte r2 h2 (omega arith) λ b r3 e3 l3 h3 n3.
        with_uint 4 r3 h3 (omega arith) λ command r4 e4 l4 h4 n4.
          with_uint 4 r4 h4 (omega arith) λ code r5 e5 l5 h5 n5.
            with_uint 4 r5 h5 (omega arith) λ flags r6 e6 l6 h6 n6.
              with_uint 4 r6 h6 (omega arith) λ version r7 e7 l7 h7 n7. (
                record {
                  signature = signature;
                  payload_length = size;
                  expects_response = false;
                  command = command;
                  return_code = to_signed (2 ^ 31) code;
                  flags = flags;
                  version = version;
                },
                b,
                record {
                  signature_u64 = l1;
                  length_u64 = l2;
                  command_u32 = l4;
                  return_code_i32 = to_signed-IsSigned (2 ^ 31) code (omega arith);
                  flags_u32 = l6;
                  version_u32 = l7;
                },
                rw (
                  e1,
                  e2,
                  e3,
                  e4,
                  e5,
                  e6,
                  e7,
                  empty r7 (omega arith),
                  to_unsigned-to_signed (2 ^ 31) code (omega arith),
                ),
              )

-- The bytes around the flag are those that the header writes.
abbrev pub SameButFlag : Bytes → Bytes → Type 0
SameButFlag xs ys = (take 16 xs ≡ take 16 ys) × (drop 17 xs ≡ drop 17 ys)

layout-SameButFlag : (b : ℕ) (h : Header) → SameButFlag (layout b h) (header_bytes h)
unfolding layout header_bytes le_bytes
layout-SameButFlag b h = (refl, refl)

-- On 33 bytes the parser gives the verdict of the checks on the header that the bytes spell: a header
-- or one of four errors, and never a panic. The header writes these bytes, the flag made 0 or 1.
-- The checks are on the signature, the command, the return code and the version; none is on the length,
-- so that headers of messages over 100MB are taken, which the doc comment of Header says are rejected.
pub new_header_from_bytes_total :
    (bytes : Bytes)
    → IsBytes bytes
    → length bytes ≡ 33
    → (h : Header) × IsHeader h
      × (new_header_from_bytes bytes ≡ verdict h)
      × SameButFlag bytes (header_bytes h)
unfolding layout
new_header_from_bytes_total bytes hb len =
    let (h, b, v, e) = all-Fields bytes hb len in
    let h' : Header = record h { expects_response = not (b == 0) } in
    (
      h',
      record {
        signature_u64 = v.signature_u64;
        length_u64 = v.length_u64;
        command_u32 = v.command_u32;
        return_code_i32 = v.return_code_i32;
        flags_u32 = v.flags_u32;
        version_u32 = v.version_u32;
      },
      ap new_header_from_bytes e ∙ parse-layout b h v,
      subst (λ xs. SameButFlag xs (header_bytes h')) (sym e) (layout-SameButFlag b h'),
    )
