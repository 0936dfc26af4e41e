-- ===== src/Levin/Error.antt =====
-- The errors that the package levin/ returns, one constructor for each message.

pub data Error : Type 0 where
  -- VarIn
  int_too_big : Error
  -- NewHeaderFromBytesBytes
  header_size signature_mismatch invalid_command invalid_return_code invalid_version : Error
  -- NewPortableStorageFromBytes
  sig_a_out_of_bounds sig_a_mismatch sig_b_mismatch version_mismatch : Error
