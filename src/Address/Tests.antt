-- ===== src/Address/Tests.antt =====
-- A standard address with a hash function that returns zeros, there and back.
use go_monero.Base.{ℕ, ◌≡◌, refl, some, false, [], ◌∷◌, arith, ok}
use go_monero.Base.Bytes.{Bytes}
use go_monero.Base58.{decode_monero_base58}
use go_monero.Address.{decode_address, extract_payment_id, is_sub_address}
use go_monero.Address.Format.{
  IsSizedAddress, integrated, Address, IsAddress, address_bytes, address_text, IsHash,
}
use go_monero.Address.RoundTrip.{decode_address-address_text}
use go_monero.Address.Sound.{decode_address_sound}

abbrev key : ℕ → Bytes
key a =
    a ∷ 2 ∷ 3 ∷ 4 ∷ 5 ∷ 6 ∷ 7 ∷ 8 ∷ 9 ∷ 10 ∷ 11 ∷ 12 ∷ 13 ∷ 14 ∷ 15 ∷ 16 ∷ 17 ∷ 18 ∷ 19 ∷ 20 ∷ 21
    ∷ 22 ∷ 23 ∷ 24 ∷ 25 ∷ 26 ∷ 27 ∷ 28 ∷ 29 ∷ 30 ∷ 31 ∷ 32 ∷ []

-- Not a good hash function, but one that depends on what it is given.
abbrev first_byte : Bytes → Bytes
first_byte [] = key 0
first_byte (b ∷ bs) = key 1

first_byte-IsHash : IsHash first_byte
first_byte-IsHash [] = record { bytes = omega arith; length_32 = refl }
first_byte-IsHash (b ∷ bs) = record { bytes = omega arith; length_32 = refl }

abbrev wallet : Address
wallet = record {
  kind = integrated (8 ∷ 7 ∷ 6 ∷ 5 ∷ 4 ∷ 3 ∷ 2 ∷ 1 ∷ []);
  spend = key 100;
  view = key 200;
}

wallet-IsAddress : IsAddress wallet
wallet-IsAddress = record {
  is_kind = (omega arith, refl);
  is_spend = record { bytes = omega arith; length_32 = refl };
  is_view = record { bytes = omega arith; length_32 = refl };
}

decode_address-address_text_example :
    (decode_address first_byte (address_text first_byte wallet) ≡ ok (key 100, key 200))
    × (extract_payment_id (address_text first_byte wallet)
        ≡ ok (some (8 ∷ 7 ∷ 6 ∷ 5 ∷ 4 ∷ 3 ∷ 2 ∷ 1 ∷ [])))
    × (is_sub_address (address_text first_byte wallet) ≡ ok false)
decode_address-address_text_example =
    decode_address-address_text first_byte wallet first_byte-IsHash wallet-IsAddress

decode_address_sound_example :
    (a : Address) × IsSizedAddress a
    × (decode_monero_base58 (address_text first_byte wallet) ≡ ok (address_bytes first_byte a))
    × (◌≡◌ {A = Bytes × Bytes} (a.spend, a.view) (key 100, key 200))
decode_address_sound_example =
    decode_address_sound first_byte (address_text first_byte wallet) (key 100, key 200)
      decode_address-address_text_example.0
