-- ===== src/Base58/Tests.antt =====
-- Short texts, and the theorems at them.
use go_monero.Base.{ℕ, ◌≡◌, refl, [], ◌∷◌, ok, err, panic, out_of_range, arith, some}
use go_monero.Base.Bytes.{codes, cut}
use go_monero.Base.Space.{trim_space, trim_front, after_any, after, white_space}
use go_monero.Base58.{
  invalid_char, unexpected_length, decode_monero_base58, decode_trimmed, chunks, read_chunk,
  chunk_value, be_bytes, b58_map, place,
}
use go_monero.Base58.Digits.{encode_blocks}
use go_monero.Base58.RoundTrip.{decode_monero_base58-encode_blocks}
use go_monero.Base58.Lengths.{decode_monero_base58-out_of_range}

-- 5 bytes, with white space round their 7 characters.
spaces_trimmed : trim_space (codes " 1111113\t") ≡ codes "1111113"
unfolding trim_space trim_front after_any after white_space
spaces_trimmed = refl

five_decoded : decode_trimmed (codes "1111113") ≡ ok (0 ∷ 0 ∷ 0 ∷ 0 ∷ 2 ∷ [])
unfolding decode_trimmed chunks read_chunk chunk_value be_bytes b58_map place cut
five_decoded = refl

bad_char : decode_trimmed (codes "11111l1") ≡ err invalid_char
unfolding decode_trimmed chunks read_chunk chunk_value be_bytes b58_map place cut
bad_char = refl

short_refused : decode_trimmed (codes "11111") ≡ err unexpected_length
unfolding decode_trimmed chunks
short_refused = refl

decode_monero_base58-out_of_range_example :
    decode_monero_base58 (codes "11111111") ≡ panic out_of_range
unfolding b58_map
decode_monero_base58-out_of_range_example =
    decode_monero_base58-out_of_range (codes "11111111")
      (one, (one, (one, (one, (one, (one, (one, (one, tt)))))))) (omega arith)
  where
    one : (i : ℕ) × (b58_map b'1' ≡ some i)
    one = (0, refl)

decode_monero_base58-encode_blocks_example :
    decode_monero_base58 (encode_blocks 0 (1 ∷ 2 ∷ 3 ∷ 4 ∷ 5 ∷ [])) ≡ ok (1 ∷ 2 ∷ 3 ∷ 4 ∷ 5 ∷ [])
decode_monero_base58-encode_blocks_example =
    decode_monero_base58-encode_blocks 0 (1 ∷ 2 ∷ 3 ∷ 4 ∷ 5 ∷ []) (omega arith) refl
