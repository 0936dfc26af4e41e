-- ===== src/Block/Merkle/Root.antt =====
-- calcMerkleRoot computes the root of a perfect tree, in place, level by level.
use native.Mathlib.Decide.{dec_lt}
use native.Mathlib.Nat.{pow-suc}
use go_monero.Base.{
  ℕ, zero, suc, ◌+◌, ◌-◌, ◌*◌, ◌/◌, ◌^◌, ◌≤◌, ◌<◌, ◌≡◌, refl, sym, ap, ◌∙◌, List, [], ◌∷◌, ◌++◌,
  append_assoc, append-nil, length, take, drop, arith, ok, ◌>>=◌, length-take, length-drop,
  length-append, drop-append,
}
use go_monero.Base.Bytes.{Bytes}
use go_monero.Block.Merkle.{
  leaf_hash, offset_tree, level, levels, set_at, previous_power_of_two, len_bits, calc_merkle_root,
}
use go_monero.Block.Merkle.Tree.{root, pairs, length-pairs, root-pairs}

set_at-append :
    (done : List Bytes) (h z : Bytes) (zs : List Bytes)
    → set_at (length done) h (done ++ (z ∷ zs)) ≡ done ++ (h ∷ zs)
unfolding set_at
set_at-append [] h z zs = refl
set_at-append (d ∷ ds) h z zs = ap (◌∷◌ d) (set_at-append ds h z zs)

pow_pos : (k : ℕ) → 0 < 2 ^ k
pow_pos zero = omega arith
pow_pos (suc k) = omega (arith, pow-suc 2 k, pow_pos k)

drop-unread :
    (done stale unread : List Bytes)
    → length stale ≡ length done
    → drop (length done + length done) (done ++ (stale ++ unread)) ≡ unread
drop-unread done stale unread same =
    let both : length done + length done ≡ length (done ++ stale) =
      omega (arith, length-append done stale) in
    rw (both, sym (append_assoc done stale unread)) (drop-append (done ++ stale) unread)

-- Where the cells behind those that are done stand after one more: the first is overwritten.
shifted :
    (stale : List Bytes) (x y : Bytes) (more : List Bytes)
    → (z : Bytes) × (rest : List Bytes) × (stale ++ (x ∷ y ∷ more) ≡ z ∷ (rest ++ more))
      × (length rest ≡ suc (length stale))
shifted [] x y more = (x, y ∷ [], refl, refl)
shifted (s ∷ ss) x y more = (
  s,
  ss ++ (x ∷ y ∷ []),
  ap (◌∷◌ s) (sym (append_assoc ss (x ∷ y ∷ []) more)),
  omega (arith, length-append ss (x ∷ y ∷ [])),
)

module _ (keccak256 : Bytes → Bytes) where
  level_step :
      (n : ℕ) (done stale rest more : List Bytes) (x y z h : Bytes)
      → stale ++ (x ∷ y ∷ more) ≡ z ∷ (rest ++ more)
      → level keccak256 n
          (suc (length done))
          (set_at (length done) h (done ++ (stale ++ (x ∷ y ∷ more))))
        ≡ level keccak256 n (length (done ++ (h ∷ []))) ((done ++ (h ∷ [])) ++ (rest ++ more))
  level_step n done stale rest more x y z h e =
      let one_longer : length (done ++ (h ∷ [])) ≡ suc (length done) =
        omega (arith, length-append done (h ∷ [])) in
      rw
        (
          e,
          set_at-append done h z (rest ++ more),
          one_longer,
          append_assoc done (h ∷ []) (rest ++ more),
        )
        refl

  -- The tree in the middle of a level: the hashes that are done, as many cells that are stale, and the
  -- leaves that are not read yet.
  level-pairs :
      (n : ℕ) (done stale unread : List Bytes)
      → length stale ≡ length done
      → n + n ≤ length unread
      → (junk : List Bytes) × (level keccak256 n (length done) (done ++ (stale ++ unread))
          ≡ ok (done ++ (take n (pairs keccak256 unread) ++ junk)))
  unfolding level pairs leaf_hash
  level-pairs zero done stale unread same enough = (stale ++ unread, refl)
  level-pairs (suc n) done stale [] same enough = absurd (omega arith)
  level-pairs (suc n) done stale (x ∷ []) same enough = absurd (omega arith)
  level-pairs (suc n) done stale (x ∷ y ∷ more) same enough =
      let h : Bytes = keccak256 (x ++ y) in
      let (z, rest, e, len) = shifted stale x y more in
      let (junk, ih) =
        level-pairs n (done ++ (h ∷ [])) rest more
          (omega (arith, len, same, length-append done (h ∷ []))) (omega arith) in
      (
        junk,
        rw (drop-unread done stale (x ∷ y ∷ more) same) (
            level_step n done stale rest more x y z h e
            ∙ (ih
                ∙ ap (λ (t : List Bytes). ok t)
                    (append_assoc done (h ∷ []) (take n (pairs keccak256 more) ++ junk)))),
      )

  take-pairs_front :
      (n : ℕ) (xs junk : List Bytes)
      → length xs ≡ n + n
      → take n (pairs keccak256 (xs ++ junk)) ≡ pairs keccak256 xs
  unfolding pairs
  take-pairs_front zero [] junk h = refl
  take-pairs_front zero (x ∷ xs) junk h = absurd (omega arith)
  take-pairs_front (suc n) [] junk h = absurd (omega arith)
  take-pairs_front (suc n) (x ∷ []) junk h = absurd (omega arith)
  take-pairs_front (suc n) (x ∷ y ∷ xs) junk h =
      ap (◌∷◌ (keccak256 (x ++ y))) (take-pairs_front n xs junk (omega arith))

  -- A whole level, on a tree of leaves with anything behind them.
  whole_level :
      (n : ℕ) (xs junk : List Bytes)
      → length xs ≡ n + n
      → (junk' : List Bytes) × (level keccak256 n 0 (xs ++ junk) ≡ ok (pairs keccak256 xs ++ junk'))
  whole_level n xs junk len =
      let (junk', e) =
        level-pairs n [] [] (xs ++ junk) refl (omega (arith, length-append xs junk)) in
      (junk', e ∙ ap (λ (t : List Bytes). ok (t ++ junk')) (take-pairs_front n xs junk len))

  two_leaves :
      (xs junk : List Bytes)
      → length xs ≡ 2
      → leaf_hash keccak256 (xs ++ junk) ≡ ok (root keccak256 1 xs)
  unfolding leaf_hash root
  two_leaves [] junk h = absurd (omega arith)
  two_leaves (x ∷ []) junk h = absurd (omega arith)
  two_leaves (x ∷ y ∷ []) junk h = refl
  two_leaves (x ∷ y ∷ z ∷ zs) junk h = absurd (omega arith)

  next_level :
      (f p : ℕ) (tree : List Bytes)
      → 1 < p
      → levels keccak256 (suc f) p tree
        ≡ (level keccak256 p 0 tree >>= λ t. levels keccak256 f (p / 2) t)
  unfolding levels
  next_level f p tree more = ground arith

  -- All the levels: a perfect tree of leaves, with anything behind it, leaves its two last hashes.
  levels-root :
      (k f : ℕ) (xs junk : List Bytes)
      → length xs ≡ 2 ^ suc k
      → k < f
      → (levels keccak256 f (2 ^ k) (xs ++ junk) >>= leaf_hash keccak256)
        ≡ ok (root keccak256 (suc k) xs)
  unfolding levels
  levels-root k zero xs junk len enough = absurd (omega arith)
  levels-root zero (suc f) xs junk len enough = two_leaves xs junk len
  levels-root (suc k) (suc f) xs junk len enough =
      let double : 2 ^ suc (suc k) ≡ 2 ^ suc k + 2 ^ suc k = omega (arith, pow-suc 2 (suc k)) in
      let half : 2 ^ suc k / 2 ≡ 2 ^ k = omega (arith, pow-suc 2 k) in
      let (junk', one) = whole_level (2 ^ suc k) xs junk (len ∙ double) in
      let shorter : length (pairs keccak256 xs) ≡ 2 ^ suc k =
        length-pairs keccak256 (2 ^ suc k) xs (len ∙ double) in
      rw (next_level f (2 ^ suc k) (xs ++ junk) (omega (arith, pow-suc 2 k, pow_pos k)), one, half)
        (levels-root k f (pairs keccak256 xs) junk' shorter (omega arith)
          ∙ ap (λ (t : Bytes). ok t) (root-pairs keccak256 (suc k) xs len))

  offset_tree-pairs :
      (m : ℕ) (t : List Bytes)
      → length t ≡ m + m
      → offset_tree keccak256 m t ≡ ok (pairs keccak256 t)
  unfolding offset_tree pairs leaf_hash
  offset_tree-pairs zero [] h = refl
  offset_tree-pairs zero (x ∷ xs) h = absurd (omega arith)
  offset_tree-pairs (suc m) [] h = absurd (omega arith)
  offset_tree-pairs (suc m) (x ∷ []) h = absurd (omega arith)
  offset_tree-pairs (suc m) (x ∷ y ∷ xs) h = rw (offset_tree-pairs m xs (omega arith)) refl

len_bits-zero : (f x : ℕ) → x ≡ 0 → len_bits f x ≡ 0
unfolding len_bits
len_bits-zero zero x h = refl
len_bits-zero (suc f) x h = ground arith

len_bits-half : (f x : ℕ) → 0 < x → len_bits (suc f) x ≡ suc (len_bits f (x / 2))
unfolding len_bits
len_bits-half f x h = ground arith

-- The length in bits: at most the fuel, and the power of two above the number.
len_bits-bounds :
    (f x : ℕ)
    → x < 2 ^ f
    → 0 < x
    → (len_bits f x ≤ f) × (x < 2 ^ len_bits f x) × (2 ^ len_bits f x ≤ 2 * x)
len_bits-bounds zero x small p = absurd (omega arith)
len_bits-bounds (suc f) x small p =
    let l = len_bits f (x / 2) in
    let longer : len_bits (suc f) x ≡ suc l = len_bits-half f x p in
    rw longer (elim (dec_lt 0 (x / 2)) [
      | yes more ↦
          let (le, above, below) = len_bits-bounds f (x / 2) (omega (arith, pow-suc 2 f)) more in
          (omega arith, omega (arith, pow-suc 2 l), omega (arith, pow-suc 2 l))
      | no none ↦
          let e : l ≡ 0 = len_bits-zero f (x / 2) (omega arith) in
          rw e (omega arith, omega arith, omega arith)
    ])

bits_of_three : (l n : ℕ) → 2 < n → n < 2 ^ l → 2 ≤ l
bits_of_three zero n many above = absurd (omega arith)
bits_of_three (suc zero) n many above = absurd (omega arith)
bits_of_three (suc (suc l)) n many above = omega arith

-- The power of two that the program finds.
previous_power :
    (n : ℕ)
    → 2 < n
    → n < 2 ^ 64
    → (k : ℕ) × (k < 64)
      × (2 ^ suc k ≤ n)
      × (n < 2 ^ suc (suc k))
      × (previous_power_of_two n ≡ 2 ^ suc k)
unfolding previous_power_of_two
previous_power n many small =
    let l = len_bits 64 n in
    let (le, above, below) = len_bits-bounds 64 n small (omega arith) in
    let long : 2 ≤ l = bits_of_three l n many above in
    let k : ℕ = l - 2 in
    let e : l ≡ suc (suc k) = omega (arith, long) in
    let less : l - 1 ≡ suc k = omega (arith, long) in
    let power : 2 ^ l ≡ 2 ^ suc (suc k) = ap (λ (i : ℕ). 2 ^ i) e in
    (
      k,
      omega (arith, le, long),
      omega (arith, below, power, pow-suc 2 (suc k)),
      omega (arith, above, power),
      rw less (ground arith),
    )

-- The leaves of the perfect tree: the hashes before the offset, and the pairs behind it.
unfoldable pub perfect_leaves : (Bytes → Bytes) → ℕ → List Bytes → List Bytes
perfect_leaves keccak256 p t =
    take (p + p - length t) t ++ pairs keccak256 (drop (p + p - length t) t)

perfect_leaves-calc :
    (keccak256 : Bytes → Bytes) (t : List Bytes) (k : ℕ)
    → 2 < length t
    → k < 64
    → 2 ^ suc k ≤ length t
    → length t < 2 ^ suc (suc k)
    → previous_power_of_two (length t) ≡ 2 ^ suc k
    → calc_merkle_root keccak256 t
      ≡ ok (root keccak256 (suc k) (perfect_leaves keccak256 (2 ^ suc k) t))
unfolding calc_merkle_root perfect_leaves
perfect_leaves-calc keccak256 t k many fuel le above p =
    let offset : ℕ = 2 ^ suc k + 2 ^ suc k - length t in
    let off : 2 ^ suc k * 2 - length t ≡ offset = omega arith in
    let half : 2 ^ suc k / 2 ≡ 2 ^ k = omega (arith, pow-suc 2 k) in
    let rest : List Bytes = drop offset t in
    let count : ℕ = 2 ^ suc k - offset in
    let even : length rest ≡ count + count =
      omega (arith, length-drop offset t, pow-suc 2 (suc k)) in
    let leaves : List Bytes = take offset t ++ pairs keccak256 rest in
    let whole : length leaves ≡ 2 ^ suc k = omega (
      arith,
      length-append (take offset t) (pairs keccak256 rest),
      length-take offset t,
      length-pairs keccak256 count rest even,
      pow-suc 2 (suc k),
    ) in
    let top : (levels keccak256 64 (2 ^ k) leaves >>= leaf_hash keccak256)
        ≡ ok (root keccak256 (suc k) leaves) =
      ap (λ (x : List Bytes). levels keccak256 64 (2 ^ k) x >>= leaf_hash keccak256)
        (sym (append-nil leaves))
      ∙ levels-root keccak256 k 64 leaves [] whole fuel in
    rw (p, off, offset_tree-pairs keccak256 count rest even, half, top) (ground arith)

-- For more than two hashes, and fewer than 2^64: with the largest power of two that is not above
-- their number for the number of leaves, calcMerkleRoot returns the root of the perfect tree over
-- the leaves, which are the first hashes, and the others hashed in pairs.
pub calc_merkle_root-root :
    (keccak256 : Bytes → Bytes) (t : List Bytes)
    → 2 < length t
    → length t < 2 ^ 64
    → (k : ℕ) × (2 ^ suc k ≤ length t)
      × (length t < 2 ^ suc (suc k))
      × (calc_merkle_root keccak256 t
          ≡ ok (root keccak256 (suc k) (perfect_leaves keccak256 (2 ^ suc k) t)))
calc_merkle_root-root keccak256 t many small =
    let (k, fuel, le, above, p) = previous_power (length t) many small in
    (k, le, above, perfect_leaves-calc keccak256 t k many fuel le above p)
