-- ===== src/Base/Text.antt =====
-- Text of the standard library: decimal numbers (fmt's %d) and addresses (net.IP.String).
use go_monero.Base.{
  ℕ, zero, suc, ◌+◌, ◌*◌, ◌/◌, ◌%◌, not, ◌&&◌, List, [], ◌∷◌, ◌++◌, length, take, drop, ltb, leb,
  ◌==◌, if◌then◌else◌,
}
use go_monero.Base.Bytes.{Bytes, codes, bytes_eq}
use go_monero.Base.Hex.{to_hex_char, hex_encode}

-- The digits of `n` in front of `rest`; the fuel bounds their number, and 20 are enough for a uint64.
unfoldable pub digits_of : ℕ → ℕ → Bytes → Bytes
digits_of zero n rest = rest
digits_of (suc f) n rest =
    let here = (b'0' + n % 10) ∷ rest in
    let more = digits_of f (n / 10) here in if ltb n 10 then here else more

unfoldable pub decimal : ℕ → Bytes
unfolding digits_of
decimal n = digits_of 20 n []

-- Four bytes, in decimal with dots.
unfoldable pub dotted : Bytes → Bytes
unfolding decimal
dotted [] = []
dotted (b ∷ []) = decimal b
dotted (b ∷ c ∷ bs) = decimal b ++ (b'.' ∷ dotted (c ∷ bs))

-- The 16-bit groups of 16 bytes.
unfoldable pub groups : Bytes → List ℕ
groups (a ∷ b ∷ bs) = (a * 256 + b) ∷ groups bs
groups _ = []

-- Hexadecimal without leading zeros.
unfoldable pub group_hex : ℕ → Bytes
unfolding to_hex_char
group_hex g =
    let d = to_hex_char (g % 16) ∷ [] in
    let d2 = to_hex_char (g / 16 % 16) ∷ d in
    let d3 = to_hex_char (g / 256 % 16) ∷ d2 in
    if ltb g 0x10
    then d
    else if ltb g 0x100
    then d2
    else if ltb g 0x1000
    then d3
    else to_hex_char (g / 4096) ∷ d3

unfoldable pub zeros : List ℕ → ℕ
zeros [] = 0
zeros (g ∷ gs) = let more = zeros gs in if g == 0 then suc more else 0

-- The first of the longest runs of two or more zero groups, as its length and its start.
unfoldable pub longest_run : ℕ → List ℕ → ℕ → ℕ → ℕ × ℕ
unfolding zeros
longest_run at [] size start = (size, start)
longest_run at (g ∷ gs) size start =
    let run = zeros (g ∷ gs) in
    let longer = longest_run (suc at) gs run at in
    let kept = longest_run (suc at) gs size start in
    if leb 2 run && ltb size run then longer else kept

unfoldable pub colons : List ℕ → Bytes
unfolding group_hex
colons [] = []
colons (g ∷ []) = group_hex g
colons (g ∷ h ∷ gs) = group_hex g ++ (b':' ∷ colons (h ∷ gs))

unfoldable pub v6_text : List ℕ → Bytes
unfolding longest_run colons
v6_text gs =
    let (size, start) = longest_run 0 gs 0 0 in
    if size == 0
    then colons gs
    else colons (take start gs) ++ (b':' ∷ b':' ∷ colons (drop (start + size) gs))

abbrev v4_prefix : Bytes
v4_prefix = 0 ∷ 0 ∷ 0 ∷ 0 ∷ 0 ∷ 0 ∷ 0 ∷ 0 ∷ 0 ∷ 0 ∷ 0xff ∷ 0xff ∷ []

-- `net.IP(b).String()`: four bytes, sixteen bytes that hold four behind a prefix, any sixteen, none,
-- and other lengths.
unfoldable pub ip_string : Bytes → Bytes
unfolding dotted groups v6_text hex_encode bytes_eq
ip_string b =
    if length b == 0
    then codes "<nil>"
    else if length b == 4
    then dotted b
    else if not (length b == 16)
    then b'?' ∷ hex_encode b
    else if bytes_eq (take 12 b) v4_prefix
    then dotted (drop 12 b)
    else v6_text (groups b)
