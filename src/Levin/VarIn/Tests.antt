-- ===== src/Levin/VarIn/Tests.antt =====
-- Runs at the borders of the three sizes, and the theorems at concrete inputs.
use go_monero.Base.{◌≡◌, refl, [], ◌∷◌, ◌++◌, ok, err, panic, int64_varint}
use go_monero.Base.Bytes.{le_bytes, le_value}
use go_monero.Levin.Slice.{slice, slice_uint}
use go_monero.Levin.Error.{int_too_big}
use go_monero.Levin.VarIn.{var_in, read_var_int}
use go_monero.Levin.VarIn.Laws.{read_var_int-var_in}

var_in_63 : var_in 63 ≡ ok (0xfc ∷ [])
unfolding var_in
var_in_63 = refl

var_in_64 : var_in 64 ≡ ok (0x01 ∷ 0x01 ∷ [])
unfolding var_in le_bytes
var_in_64 = refl

var_in_16384 : var_in 16384 ≡ ok (0x02 ∷ 0x00 ∷ 0x01 ∷ 0x00 ∷ [])
unfolding var_in le_bytes
var_in_16384 = refl

var_in_big : var_in 1073741824 ≡ err int_too_big
unfolding var_in
var_in_big = refl

read_int64 : read_var_int [] (0x03 ∷ 0 ∷ []) ≡ panic int64_varint
unfolding read_var_int
read_int64 = refl

-- Two bytes of four are there, and the capacity has two more.
read_over : read_var_int (0 ∷ 1 ∷ 9 ∷ []) (0x02 ∷ 0 ∷ []) ≡ ok (4194304, [], 9 ∷ [])
unfolding read_var_int slice_uint slice le_value
read_over = refl

read_var_int-var_in_example :
    read_var_int (9 ∷ []) ((0x01 ∷ 0x01 ∷ []) ++ (7 ∷ [])) ≡ ok (64, 7 ∷ [], 9 ∷ [])
read_var_int-var_in_example = read_var_int-var_in (9 ∷ []) 64 (0x01 ∷ 0x01 ∷ []) (7 ∷ []) var_in_64
