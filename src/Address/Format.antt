-- ===== src/Address/Format.antt =====
-- What an address is, independently of the decoder: a kind with its network byte, two public keys,
-- a payment id in an integrated address, and the first four bytes of the hash of all that.
use go_monero.Base.{ℕ, ◌≡◌, Bool, true, false, Option, none, some, [], ◌∷◌, ◌++◌, length, take}
use go_monero.Base.Bytes.{Bytes, IsBytes}
use go_monero.Base58.Digits.{encode_blocks}

pub data Kind : Type 0 where
  standard sub : Kind
  integrated : Bytes → Kind

pub record Address : Type 0 where
  pub kind : Kind
  pub spend : Bytes
  pub view : Bytes

-- 32 bytes.
pub record IsKey (k : Bytes) : Type 0 where
  pub bytes : IsBytes k
  pub length_32 : length k ≡ 32

abbrev pub IsKind : Kind → Type 0
IsKind standard = Unit {0}
IsKind sub = Unit {0}
IsKind (integrated pid) = IsBytes pid × (length pid ≡ 8)

pub record IsAddress (a : Address) : Type 0 where
  pub is_kind : IsKind a.kind
  pub is_spend : IsKey a.spend
  pub is_view : IsKey a.view

-- A payment id of 8 bytes where there is one.
abbrev pub IsSizedKind : Kind → Type 0
IsSizedKind standard = Unit {0}
IsSizedKind sub = Unit {0}
IsSizedKind (integrated pid) = length pid ≡ 8

-- The lengths of the parts alone: two keys of 32 bytes, and a payment id of 8 where there is one.
pub record IsSizedAddress (a : Address) : Type 0 where
  pub kind_sized : IsSizedKind a.kind
  pub spend_32 : length a.spend ≡ 32
  pub view_32 : length a.view ≡ 32

abbrev pub network : Kind → ℕ
network standard = 0x12
network sub = 0x2A
network (integrated pid) = 0x13

abbrev pub payment_id : Kind → Option Bytes
payment_id standard = none
payment_id sub = none
payment_id (integrated pid) = some pid

abbrev pub is_sub : Kind → Bool
is_sub standard = false
is_sub sub = true
is_sub (integrated pid) = false

abbrev pub id_bytes : Kind → Bytes
id_bytes standard = []
id_bytes sub = []
id_bytes (integrated pid) = pid

abbrev pub body : Address → Bytes
body a = network a.kind ∷ (a.spend ++ (a.view ++ id_bytes a.kind))

unfoldable pub address_bytes : (Bytes → Bytes) → Address → Bytes
address_bytes keccak256 a = body a ++ take 4 (keccak256 (body a))

-- 69 bytes are 8 whole blocks and one of 5, 77 are 9 and one of 5.
abbrev pub blocks : Kind → ℕ
blocks standard = 8
blocks sub = 8
blocks (integrated pid) = 9

unfoldable pub address_text : (Bytes → Bytes) → Address → Bytes
address_text keccak256 a = encode_blocks (blocks a.kind) (address_bytes keccak256 a)

-- What util.Keccak256 returns: 32 bytes.
abbrev pub IsHash : (Bytes → Bytes) → Type 0
IsHash keccak256 = (b : Bytes) → IsKey (keccak256 b)
