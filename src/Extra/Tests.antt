-- ===== src/Extra/Tests.antt =====
-- Extra fields that are read.
use go_monero.Base.{◌≡◌, refl, none, some, [], ◌∷◌, ◌++◌, ok, err, Answers}
use go_monero.Base.Bytes.{Bytes}
use go_monero.Extra.{
  nonce_truncated, invalid_additional_keys, read_payment_id, read_nonce_field, keys_of,
  read_additional_keys, read_extra_field, parse_extra_loop, no_extra, parse_tx_extra, extra_bytes,
}
use go_monero.Extra.Sizes.{IsExtra, parse_tx_extra-IsExtra}
use go_monero.Extra.RoundTrip.{parse_tx_extra-extra_bytes}

abbrev key : Bytes
key =
    101 ∷ 102 ∷ 103 ∷ 104 ∷ 105 ∷ 106 ∷ 107 ∷ 108 ∷ 109 ∷ 110 ∷ 111 ∷ 112 ∷ 113 ∷ 114 ∷ 115 ∷ 116
    ∷ 117 ∷ 118 ∷ 119 ∷ 120 ∷ 121 ∷ 122 ∷ 123 ∷ 124 ∷ 125 ∷ 126 ∷ 127 ∷ 128 ∷ 129 ∷ 130 ∷ 131 ∷ 132
    ∷ []

-- Padding, two additional keys, then a tag that is not known and ends the reading.
abbrev two_keys : Bytes
two_keys = 0 ∷ 4 ∷ 64 ∷ key ++ key ++ 0xDE ∷ 1 ∷ 2 ∷ []

two_keys_read : parse_tx_extra two_keys ≡ ok (record no_extra { additional_keys = key ∷ key ∷ [] })
unfolding parse_tx_extra parse_extra_loop read_extra_field read_additional_keys keys_of
two_keys_read = refl

half_key_refused : parse_tx_extra (4 ∷ 16 ∷ key) ≡ err invalid_additional_keys
unfolding parse_tx_extra parse_extra_loop read_extra_field read_additional_keys
half_key_refused = refl

short_nonce_refused : parse_tx_extra (2 ∷ 9 ∷ 1 ∷ 7 ∷ []) ≡ err nonce_truncated
unfolding parse_tx_extra parse_extra_loop read_extra_field read_nonce_field
short_nonce_refused = refl

payment_id_read : parse_tx_extra (2 ∷ 33 ∷ 0 ∷ key) ≡ ok (record no_extra { pid = some key })
unfolding parse_tx_extra parse_extra_loop read_extra_field read_nonce_field read_payment_id
payment_id_read = refl

parse_tx_extra-IsExtra_example : Answers IsExtra (parse_tx_extra two_keys)
parse_tx_extra-IsExtra_example = parse_tx_extra-IsExtra two_keys

parse_tx_extra-extra_bytes_example :
    parse_tx_extra (extra_bytes key (1 ∷ 2 ∷ 3 ∷ 4 ∷ 5 ∷ 6 ∷ 7 ∷ 8 ∷ []))
    ≡ ok (record {
      tx_pub_key = some key;
      additional_keys = [];
      pid = none;
      enc_pid = some (1 ∷ 2 ∷ 3 ∷ 4 ∷ 5 ∷ 6 ∷ 7 ∷ 8 ∷ []);
    })
parse_tx_extra-extra_bytes_example =
    parse_tx_extra-extra_bytes key (1 ∷ 2 ∷ 3 ∷ 4 ∷ 5 ∷ 6 ∷ 7 ∷ 8 ∷ []) refl refl
