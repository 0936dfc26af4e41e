-- ===== src/Varint/Tests.antt =====
-- Runs of the encoders and of the reader, and the theorems at concrete inputs.
use go_monero.Base.{◌+◌, ◌≤◌, ◌<◌, ◌≡◌, refl, [], ◌∷◌, ◌++◌, arith, ok, err}
use go_monero.Varint.{IsU64, encode_varint, uint64_to_bytes, read_varint, varint_too_long, eof}
use go_monero.Varint.RoundTrip.{encode_varint-uint64_to_bytes, read_varint-encode_varint}
use go_monero.Varint.Reading.{read_varint_takes}

encode_300 : encode_varint 300 ≡ 0xac ∷ 0x02 ∷ []
unfolding encode_varint
encode_300 = refl

to_bytes_300 : uint64_to_bytes 300 ≡ 0xac ∷ 0x02 ∷ []
unfolding uint64_to_bytes
to_bytes_300 = refl

read_300 : read_varint (0xac ∷ 0x02 ∷ 9 ∷ []) ≡ (ok 300, 9 ∷ [])
unfolding read_varint
read_300 = refl

-- The reader fails behind the bytes that it took.
read_cut : read_varint (0xac ∷ []) ≡ (err eof, [])
unfolding read_varint
read_cut = refl

read_long :
    read_varint (0x80 ∷ 0x80 ∷ 0x80 ∷ 0x80 ∷ 0x80 ∷ 0x80 ∷ 0x80 ∷ 0x80 ∷ 0x80 ∷ 0x80 ∷ 7 ∷ [])
    ≡ (err varint_too_long, 7 ∷ [])
unfolding read_varint
read_long = refl

encode_varint-uint64_to_bytes_example : encode_varint 300 ≡ uint64_to_bytes 300
encode_varint-uint64_to_bytes_example = encode_varint-uint64_to_bytes 300

read_varint-encode_varint_example : read_varint (encode_varint 300 ++ (9 ∷ [])) ≡ (ok 300, 9 ∷ [])
read_varint-encode_varint_example = read_varint-encode_varint 300 (9 ∷ []) (omega arith)

read_varint_takes_example : IsU64 300 × (1 < 3) × (3 ≤ 1 + 10)
read_varint_takes_example = read_varint_takes (0xac ∷ 0x02 ∷ 9 ∷ []) 300 (9 ∷ []) read_300
