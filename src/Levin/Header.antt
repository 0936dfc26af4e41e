-- ===== src/Levin/Header.antt =====
-- The 33 bytes in front of a levin message: levin/levin.go.
pub mod RoundTrip
pub mod Parsing
mod Tests
use go_monero.Base.{
  ℕ, ◌^◌, ◌≡◌, ◌<◌, Bool, true, false, not, ◌&&◌, [], ◌∷◌, ◌++◌, length, ltb, leb, ◌==◌,
  if◌then◌else◌, Result, ok, err, ◌>>=◌, ◌>>◌, guard,
}
use go_monero.Base.Bytes.{Bytes, le_bytes, cut_byte, cut_uint}
use go_monero.Base.Int.{ℤ, pos, negsuc, leb_ℤ, IsSigned, to_unsigned, to_signed}
use go_monero.Levin.Error.{
  Error, header_size, signature_mismatch, invalid_command, invalid_return_code, invalid_version,
}

abbrev pub levin_signature : ℕ
levin_signature = 0x0101010101012101

abbrev pub levin_protocol_version : ℕ
levin_protocol_version = 1

abbrev pub levin_packet_request : ℕ
levin_packet_request = 0x00000001

abbrev pub levin_packet_reponse : ℕ
levin_packet_reponse = 0x00000002

abbrev pub levin_header_size_bytes : ℕ
levin_header_size_bytes = 33

-- -7.
abbrev pub levin_error_format : ℤ
levin_error_format = negsuc 6

abbrev pub command_handshake : ℕ
command_handshake = 1001

abbrev pub notify_request_fluffy_missing : ℕ
notify_request_fluffy_missing = 2009

unfoldable pub is_valid_return_code : ℤ → Bool
is_valid_return_code c = leb_ℤ levin_error_format c

unfoldable pub is_valid_command : ℕ → Bool
is_valid_command c = leb command_handshake c && leb c notify_request_fluffy_missing

pub record Header : Type 0 where
  pub signature : ℕ
  pub payload_length : ℕ
  pub expects_response : Bool
  pub command : ℕ
  pub return_code : ℤ
  pub flags : ℕ
  pub version : ℕ

-- The ranges of the field types: uint64, uint64, uint32, int32, uint32, uint32.
pub record IsHeader (h : Header) : Type 0 where
  pub signature_u64 : h.signature < 2 ^ 64
  pub length_u64 : h.payload_length < 2 ^ 64
  pub command_u32 : h.command < 2 ^ 32
  pub return_code_i32 : IsSigned (2 ^ 31) h.return_code
  pub flags_u32 : h.flags < 2 ^ 32
  pub version_u32 : h.version < 2 ^ 32

unfoldable pub new_request_header : ℕ → ℕ → Header
new_request_header command length' = record {
  signature = levin_signature;
  payload_length = length';
  expects_response = true;
  command = command;
  return_code = pos 0;
  flags = levin_packet_request;
  version = levin_protocol_version;
}

unfoldable pub new_response_header : ℕ → ℕ → Header
new_response_header command length' = record {
  signature = levin_signature;
  payload_length = length';
  expects_response = false;
  command = command;
  return_code = pos 0;
  flags = levin_packet_reponse;
  version = levin_protocol_version;
}

-- The blocks of the source one after the other; together they fill the 33 bytes.
unfoldable pub header_bytes : Header → Bytes
header_bytes h =
    le_bytes 8 h.signature
    ++ (le_bytes 8 h.payload_length
        ++ ((if h.expects_response then 0x01 else 0x00)
            ∷ (le_bytes 4 h.command
                ++ (le_bytes 4 (to_unsigned (2 ^ 31) h.return_code)
                    ++ (le_bytes 4 h.flags ++ (le_bytes 4 h.version ++ []))))))

unfoldable pub new_header_from_bytes : Bytes → Result Error Header
unfolding cut_byte
new_header_from_bytes bytes = do
  guard (length bytes == levin_header_size_bytes) header_size
  (signature, bytes) ← cut_uint 8 bytes
  guard (signature == levin_signature) signature_mismatch
  (length', bytes) ← cut_uint 8 bytes
  (flag, bytes) ← cut_byte bytes
  (command, bytes) ← cut_uint 4 bytes
  guard (is_valid_command command) invalid_command
  (code, bytes) ← cut_uint 4 bytes
  let return_code = to_signed (2 ^ 31) code
  guard (is_valid_return_code return_code) invalid_return_code
  (flags, bytes) ← cut_uint 4 bytes
  (version, bytes) ← cut_uint 4 bytes
  guard (version == levin_protocol_version) invalid_version
  ok (record {
    signature = signature;
    payload_length = length';
    expects_response = not (flag == 0);
    command = command;
    return_code = return_code;
    flags = flags;
    version = version;
  })
