-- ===== src/Levin/Header/Tests.antt =====
-- Runs of the header's two functions, and the theorems at concrete headers.
use go_monero.Base.{◌≡◌, refl, [], ◌∷◌, arith, ok, err}
use go_monero.Base.{Bool}
use go_monero.Base.Bytes.{Bytes, le_bytes, le_value, cut_uint, cut}
use go_monero.Base.Int.{negsuc}
use go_monero.Levin.Error.{header_size, invalid_return_code}
use go_monero.Levin.Header.{
  Header, IsHeader, new_request_header, header_bytes, new_header_from_bytes, is_valid_command,
  is_valid_return_code,
}
use go_monero.Levin.Header.RoundTrip.{verdict, new_header_from_bytes-header_bytes}
use go_monero.Levin.Header.Parsing.{
  SameButFlag, new_header_from_bytes_size, new_header_from_bytes_total,
}

-- The header of a handshake with 226 bytes of payload, as it goes over the wire.
abbrev handshake_bytes : Bytes
handshake_bytes =
    0x01 ∷ 0x21 ∷ 0x01 ∷ 0x01 ∷ 0x01 ∷ 0x01 ∷ 0x01 ∷ 0x01 ∷ 226 ∷ 0 ∷ 0 ∷ 0 ∷ 0 ∷ 0 ∷ 0 ∷ 0 ∷ 1
    ∷ 0xe9 ∷ 0x03 ∷ 0 ∷ 0 ∷ 0 ∷ 0 ∷ 0 ∷ 0 ∷ 1 ∷ 0 ∷ 0 ∷ 0 ∷ 1 ∷ 0 ∷ 0 ∷ 0 ∷ []

handshake_written : header_bytes (new_request_header 1001 226) ≡ handshake_bytes
unfolding header_bytes new_request_header le_bytes
handshake_written = refl

handshake_read : new_header_from_bytes handshake_bytes ≡ ok (new_request_header 1001 226)
unfolding new_header_from_bytes new_request_header cut_uint cut le_value is_valid_command
    is_valid_return_code
handshake_read = refl

-- A response with the return code -8, one below LEVIN_ERROR_FORMAT.
abbrev bad_code : Header
bad_code = record {
  signature = 0x0101010101012101;
  payload_length = 0;
  expects_response = Bool.false;
  command = 1003;
  return_code = negsuc 7;
  flags = 2;
  version = 1;
}

bad_code-IsHeader : IsHeader bad_code
bad_code-IsHeader = omega arith

bad_code_refused : verdict bad_code ≡ err invalid_return_code
unfolding verdict is_valid_command is_valid_return_code
bad_code_refused = refl

new_header_from_bytes-header_bytes_example :
    new_header_from_bytes (header_bytes bad_code) ≡ verdict bad_code
new_header_from_bytes-header_bytes_example =
    new_header_from_bytes-header_bytes bad_code bad_code-IsHeader

new_header_from_bytes_size_example : new_header_from_bytes (1 ∷ 2 ∷ []) ≡ err header_size
new_header_from_bytes_size_example = new_header_from_bytes_size (1 ∷ 2 ∷ []) (omega arith)

new_header_from_bytes_total_example :
    (h : Header) × IsHeader h
    × (new_header_from_bytes handshake_bytes ≡ verdict h)
    × SameButFlag handshake_bytes (header_bytes h)
new_header_from_bytes_total_example =
    new_header_from_bytes_total handshake_bytes (omega arith) (omega arith)
