-- ===== src/Levin/Header/RoundTrip.antt =====
-- What the parser answers on the bytes of a header, on every branch.
use go_monero.Base.{
  ℕ, ◌^◌, ◌≡◌, refl, ap, ◌∙◌, Bool, true, false, not, [], ◌∷◌, ◌++◌, length, ◌==◌, if◌then◌else◌,
  length-append, arith, Result, ok, err,
}
use go_monero.Base.Bytes.{Bytes, le_bytes, cut_uint-front, length-le_bytes}
use go_monero.Base.Int.{to_unsigned, to_signed-to_unsigned, to_unsigned-lt}
use go_monero.Levin.Error.{
  Error, signature_mismatch, invalid_command, invalid_return_code, invalid_version,
}
use go_monero.Levin.Header.{
  Header, IsHeader, header_bytes, new_header_from_bytes, is_valid_command, is_valid_return_code,
  levin_signature, levin_protocol_version,
}

-- The checks on a header, in the order in which the parser makes them.
unfoldable pub verdict : Header → Result Error Header
verdict h =
    if not (h.signature == levin_signature)
    then err signature_mismatch
    else if not (is_valid_command h.command)
    then err invalid_command
    else if not (is_valid_return_code h.return_code)
    then err invalid_return_code
    else if not (h.version == levin_protocol_version)
    then err invalid_version
    else ok h

-- The bytes with any byte `b` in the place of the flag.
unfoldable pub layout : ℕ → Header → Bytes
layout b h =
    le_bytes 8 h.signature
    ++ (le_bytes 8 h.payload_length
        ++ (b
            ∷ (le_bytes 4 h.command
                ++ (le_bytes 4 (to_unsigned (2 ^ 31) h.return_code)
                    ++ (le_bytes 4 h.flags ++ (le_bytes 4 h.version ++ []))))))

pub length-layout : (b : ℕ) (h : Header) → length (layout b h) ≡ 33
unfolding layout
length-layout b h = simp (length-append, length-le_bytes)

pub parse-layout :
    (b : ℕ) (h : Header)
    → IsHeader h
    → new_header_from_bytes (layout b h) ≡ verdict (record h { expects_response = not (b == 0) })
unfolding new_header_from_bytes layout verdict
parse-layout b h v =
    simp
      (
        length-layout b h,
        cut_uint-front {E = Error} 8 h.signature v.signature_u64,
        cut_uint-front {E = Error} 8 h.payload_length v.length_u64,
        cut_uint-front {E = Error} 4 h.command v.command_u32,
        cut_uint-front {E = Error} 4 (to_unsigned (2 ^ 31) h.return_code)
            (to_unsigned-lt (2 ^ 31) h.return_code v.return_code_i32),
        cut_uint-front {E = Error} 4 h.flags v.flags_u32,
        cut_uint-front {E = Error} 4 h.version v.version_u32,
        to_signed-to_unsigned (2 ^ 31) h.return_code v.return_code_i32,
      )
      (ground arith)

flag_read : (e : Bool) → not ((if e then 1 else 0) == 0) ≡ e
flag_read true = refl
flag_read false = refl

-- Parsing the bytes of any header gives the verdict of the checks: the header itself where they pass,
-- and the first error where not. The length is not among the checks: a header that announces more than
-- 100MB passes, which the doc comment of Header says is rejected.
pub new_header_from_bytes-header_bytes :
    (h : Header) → IsHeader h → new_header_from_bytes (header_bytes h) ≡ verdict h
unfolding header_bytes layout
new_header_from_bytes-header_bytes h v =
    parse-layout (if h.expects_response then 1 else 0) h v
    ∙ ap (λ e. verdict (record h { expects_response = e })) (flag_read h.expects_response)
