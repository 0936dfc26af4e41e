-- ===== src/Tx/Laws.antt =====
-- The readers undo the writers, on what a transaction is made of.
use mathlib.Core.Path.{subst}
use go_monero.Base.{
  ℕ, ◌-◌, ◌<◌, ◌^◌, ◌≡◌, refl, sym, ap, ◌∙◌, Bool, true, false, List, [], ◌∷◌, ◌++◌, append_assoc,
  append-nil, length, All, arith, take-append, drop-append, length-append, lt→ltb, if◌then◌else◌,
}
use go_monero.Base.Bytes.{Bytes}
use go_monero.Varint.{IsU64, read_uint8, encode_varint}
use go_monero.Varint.RoundTrip.{read_varint-encode_varint}
use go_monero.Tx.{
  TxInput, TxOutput, Echd, Bpp, write_all, hashes_bytes, input_bytes, output_bytes, echd_bytes,
  bpp_bytes, is_compact,
}
use go_monero.Tx.Read.{
  Reads, varint, byte, zeros, fill, hash, times, bound, no_input, coinbase_input, key_input,
  read_input, read_output, read_echd, read_bpp,
}

-- A reader undoes a writer where `P` holds, whatever follows.
abbrev pub Undoes : {A : Type 0} → (A → Type 0) → (A → Bytes) → Reads A → Type 0
Undoes {A} P w read = (x : A) → P x → (rest : Bytes) → read (w x ++ rest) ≡ (x, rest)

pub varint-encode_varint : Undoes IsU64 encode_varint varint
unfolding varint
varint-encode_varint n h rest = rw (read_varint-encode_varint n rest h) refl

pub fill-front : (n : ℕ) → Undoes (λ b. length b ≡ n) (λ b. b) (fill n)
unfolding fill zeros
fill-front n b len rest =
    let full : length b - length (b ++ rest) ≡ 0 = omega (arith, length-append b rest) in
    rw (sym len, take-append b rest, drop-append b rest, full, append-nil b) refl

pub times-write_all :
    {A : Type 0} (P : A → Type 0) (w : A → Bytes) (read : Reads A)
    → Undoes P w read
    → (xs : List A) (rest : Bytes) → All P xs
    → times (length xs) read (write_all w xs ++ rest) ≡ (xs, rest)
unfolding times write_all
times-write_all P w read law [] rest h = refl
times-write_all P w read law (x ∷ xs) rest (p, h) =
    rw
      (
        append_assoc (w x) (write_all w xs) rest,
        law x p (write_all w xs ++ rest),
        times-write_all P w read law xs rest h,
      )
      refl

abbrev pub IsHash : Bytes → Type 0
IsHash b = length b ≡ 32

-- A count that a varint holds and a loop runs through.
pub counted :
    {A : Type 0} (P : A → Type 0) (w : A → Bytes) (read : Reads A)
    → Undoes P w read
    → (xs : List A) (rest : Bytes) → All P xs
    → length xs < 2 ^ 63
    → (varint (encode_varint (length xs) ++ (write_all w xs ++ rest))
        ≡ (length xs, write_all w xs ++ rest))
      × (times (bound (length xs)) read (write_all w xs ++ rest) ≡ (xs, rest))
counted P w read law xs rest h small = (
  varint-encode_varint (length xs) (omega arith) _,
  rw (lt→ltb (length xs) (2 ^ 63) small) (times-write_all P w read law xs rest h),
)

-- What the type of an input of the kind 2 can hold, and what its reader leaves at 0.
pub record IsKeyInput (i : TxInput) : Type 0 where
  pub is_key : i.input_type ≡ 2
  pub no_height : i.height ≡ 0
  pub amount_u64 : IsU64 i.amount
  pub offsets_u64 : All IsU64 i.key_offsets
  pub few_offsets : length i.key_offsets < 2 ^ 63
  pub image_hash : IsHash i.key_image

-- An input of the kind 2, from the parts that are on the wire.
abbrev key_of : ℕ → ℕ → ℕ → List ℕ → Bytes → TxInput
key_of t height amount offsets image = record {
  input_type = t;
  height = height;
  amount = amount;
  key_offsets = offsets;
  key_image = image;
}

key_input-front :
    (amount : ℕ) (offsets : List ℕ) (image rest : Bytes)
    → IsU64 amount
    → All IsU64 offsets
    → length offsets < 2 ^ 63
    → IsHash image
    → key_input (
        encode_varint amount
        ++ (encode_varint (length offsets) ++ (write_all encode_varint offsets ++ (image ++ rest))))
      ≡ (key_of 2 0 amount offsets image, rest)
unfolding key_input
key_input-front amount offsets image rest ha ho few hi =
    let (count, loop) =
      counted IsU64 encode_varint varint varint-encode_varint offsets (image ++ rest) ho few in
    rw (varint-encode_varint amount ha _, count, loop, fill-front 32 image hi rest) refl

key_of-front :
    (amount : ℕ) (offsets : List ℕ) (image rest : Bytes)
    → IsU64 amount
    → All IsU64 offsets
    → length offsets < 2 ^ 63
    → IsHash image
    → read_input (input_bytes (key_of 2 0 amount offsets image) ++ rest)
      ≡ (key_of 2 0 amount offsets image, rest)
unfolding input_bytes read_input byte read_uint8
key_of-front amount offsets image rest ha ho few hi =
    rw
      (
        append_assoc (encode_varint amount)
            (encode_varint (length offsets) ++ (write_all encode_varint offsets ++ image)) rest,
        append_assoc (encode_varint (length offsets)) (write_all encode_varint offsets ++ image)
            rest,
        append_assoc (write_all encode_varint offsets) image rest,
      )
      (key_input-front amount offsets image rest ha ho few hi)

pub read_input-input_bytes : Undoes IsKeyInput input_bytes read_input
read_input-input_bytes i h rest =
    let same : key_of 2 0 i.amount i.key_offsets i.key_image ≡ i =
      ap (λ (t : ℕ). key_of t 0 i.amount i.key_offsets i.key_image) (sym h.is_key)
      ∙ ap (λ (t : ℕ). key_of i.input_type t i.amount i.key_offsets i.key_image)
          (sym h.no_height) in
    subst (λ j. read_input (input_bytes j ++ rest) ≡ (j, rest)) same
      (key_of-front i.amount i.key_offsets i.key_image rest h.amount_u64 h.offsets_u64 h.few_offsets
        h.image_hash)

pub record IsOutput (o : TxOutput) : Type 0 where
  pub amount_u64 : IsU64 o.amount
  pub target_hash : IsHash o.target

pub read_output-output_bytes : Undoes IsOutput output_bytes read_output
unfolding output_bytes read_output byte read_uint8
read_output-output_bytes o h rest =
    rw
      (
        append_assoc (encode_varint o.amount) (o.output_type ∷ (o.target ++ (o.view_tag ∷ [])))
            rest,
        varint-encode_varint o.amount h.amount_u64
            ((o.output_type ∷ (o.target ++ (o.view_tag ∷ []))) ++ rest),
        append_assoc o.target (o.view_tag ∷ []) rest,
        fill-front 32 o.target h.target_hash (o.view_tag ∷ rest),
      )
      refl

-- An encrypted amount: in the compact types no mask is written, and the reader leaves it at 0.
abbrev pub IsEchd : ℕ → Echd → Type 0
IsEchd t e = (length e.amount ≡ 8) × (if is_compact t then e.mask ≡ zeros 32 else IsHash e.mask)

pub read_echd-echd_bytes : (t : ℕ) → Undoes (IsEchd t) (echd_bytes t) (read_echd t)
unfolding echd_bytes read_echd
read_echd-echd_bytes t e (ha, hm) rest = by_kind (is_compact t) refl hm
  where
    by_kind :
        (b : Bool)
        → is_compact t ≡ b
        → (if b then e.mask ≡ zeros 32 else IsHash e.mask)
        → read_echd t (echd_bytes t e ++ rest) ≡ (e, rest)
    by_kind true k m = rw (k, fill-front 8 e.amount ha rest, sym m) refl
    by_kind false k m =
        rw
          (
            k,
            append_assoc e.mask e.amount rest,
            fill-front 32 e.mask m (e.amount ++ rest),
            fill-front 8 e.amount ha rest,
          )
          refl

pub record IsBpp (p : Bpp) : Type 0 where
  pub a_hash : IsHash p.a
  pub a1_hash : IsHash p.a1
  pub b_hash : IsHash p.b
  pub r1_hash : IsHash p.r1
  pub s1_hash : IsHash p.s1
  pub d1_hash : IsHash p.d1
  pub l_hashes : All IsHash p.l
  pub r_hashes : All IsHash p.r
  pub few_l : length p.l < 2 ^ 63
  pub few_r : length p.r < 2 ^ 63

pub read_bpp-bpp_bytes : Undoes IsBpp bpp_bytes read_bpp
unfolding bpp_bytes read_bpp
read_bpp-bpp_bytes p h rest =
    let tail_r : Bytes = hashes_bytes p.r ++ rest in
    let (l_count, l_loop) =
      counted IsHash (λ x. x) hash (fill-front 32) p.l (encode_varint (length p.r) ++ tail_r)
        h.l_hashes h.few_l in
    let (r_count, r_loop) =
      counted IsHash (λ x. x) hash (fill-front 32) p.r rest h.r_hashes h.few_r in
    simp (
      append_assoc,
      fill-front 32 p.a h.a_hash,
      fill-front 32 p.a1 h.a1_hash,
      fill-front 32 p.b h.b_hash,
      fill-front 32 p.r1 h.r1_hash,
      fill-front 32 p.s1 h.s1_hash,
      fill-front 32 p.d1 h.d1_hash,
      l_count,
      l_loop,
      r_count,
      r_loop,
    )

-- A coinbase input is written as its type alone, and its reader takes the number behind it for the
-- height.
pub read_input-coinbase :
    (i : TxInput) (n : ℕ) (rest : Bytes)
    → i.input_type ≡ 0xff
    → IsU64 n
    → read_input (input_bytes i ++ (encode_varint n ++ rest))
      ≡ (record (no_input 0xff) { height = n }, rest)
unfolding input_bytes read_input coinbase_input byte read_uint8 zeros
read_input-coinbase i n rest is_coinbase small =
    rw (is_coinbase, varint-encode_varint n small rest) refl
