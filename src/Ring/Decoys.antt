-- ===== src/Ring/Decoys.antt =====
-- The choice of decoys: SelectDecoys of types/gamma_selector.go. Two parameters stand for the random
-- source and the floating-point arithmetic on it: `age k` is `ageBlocks` in the k-th attempt, and
-- `int63n k n` what the attempt's call of Int63n returns. A map's keys are a list.
pub mod Chosen
mod Tests
use go_monero.Base.{
  ℕ, zero, suc, ◌+◌, ◌-◌, ◌/◌, ◌%◌, ◌^◌, Bool, true, false, ◌||◌, ◌&&◌, List, [], ◌∷◌, length, ltb,
  leb, ◌==◌, if◌then◌else◌, Result, ok, err, ◌>>=◌, ◌>>◌, guard,
}
use go_monero.Ring.{sort}

pub data DecoyError : Type 0 where
  not_enough_outputs invalid_max too_few_decoys : DecoyError

abbrev pub ring_size : ℕ
ring_size = 16

abbrev pub max_attempts : ℕ
max_attempts = 10000

-- A tenth of the blocks of a day.
abbrev pub jitter_range : ℕ
jitter_range = 72

unfoldable pub contains : ℕ → List ℕ → Bool
contains g [] = false
contains g (x ∷ xs) = x == g || contains g xs

-- `intBase + jitter` on int64, where it is positive, or 0: a sum of 2 ^ 63 or more wraps to a
-- negative number.
unfoldable pub jittered : ℕ → ℕ → ℕ
jittered base_index draw =
    let int_base = if ltb (2 ^ 63 - 1) base_index then 2 ^ 63 - 1 else base_index in
    if leb (int_base + draw) jitter_range
    then 0
    else if leb (2 ^ 63) (int_base + draw - jitter_range)
    then 0
    else int_base + draw - jitter_range

module _ (age : ℕ → ℕ) (int63n : ℕ → ℕ → ℕ) where
  -- `gi` of an attempt.
  unfoldable pub candidate : ℕ → ℕ → ℕ
  candidate max_global_index k =
      if leb max_global_index (age k)
      then (let tenth = max_global_index / 10 in int63n k (if ltb tenth 1 then 1 else tenth))
      else (let gi = jittered (max_global_index - age k) (int63n k (jitter_range + jitter_range)) in
          if leb max_global_index gi then max_global_index - 1 else gi)

  -- The loop, with the attempts that are left.
  unfoldable pub decoy_loop : ℕ → ℕ → ℕ → ℕ → List ℕ → List ℕ
  decoy_loop zero k real max selected = selected
  decoy_loop (suc left) k real max selected =
      let gi = candidate max k in
      let more =
        decoy_loop left (suc k) real max
          (if gi == real || contains gi selected then selected else gi ∷ selected) in
      if ltb (length selected) ring_size then more else selected

  unfoldable pub select_decoys : ℕ → ℕ → Result DecoyError (List ℕ)
  select_decoys real max = do
    guard (leb ring_size ((max + 1) % 2 ^ 64)) not_enough_outputs
    guard (if max == 0 then false else true) invalid_max
    let selected = decoy_loop max_attempts 0 real max (real ∷ [])
    guard (leb ring_size (length selected)) too_few_decoys
    ok (sort selected)
