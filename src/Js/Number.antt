-- ===== src/Js/Number.antt =====
-- `Number(x)` for a bigint, and sums of whole `number`s: the nearest double, ties to even. Whole
-- doubles are integers here. Magnitudes from 2^1024 on, which become Infinity, are left out.
use multi_delegator.Base.{
  ℕ, zero, suc, ◌+◌, ◌-◌, ◌*◌, ◌/◌, ◌%◌, ◌^◌, ◌<◌, ◌≡◌, refl, ap, arith, ltb, ◌==◌, if◌then◌else◌,
}
use multi_delegator.Base.Int.{ℤ, pos, negsuc, pos_part, neg_part, ◌+ℤ◌}

-- how often `n` is halved before it fits the 53 bits of a double
exponent : ℕ → ℕ → ℕ
exponent zero n = 0
exponent (suc fuel) n = let more = exponent fuel (n / 2) + 1 in if ltb n (2 ^ 53) then 0 else more

-- `n` to the nearest multiple of `unit`, ties to an even multiple
nearest : ℕ → ℕ → ℕ
nearest unit n =
    let q = n / unit in
    let r = n % unit in
    if ltb (2 * r) unit
    then q * unit
    else if ltb unit (2 * r)
    then (q + 1) * unit
    else if q % 2 == 0
    then q * unit
    else (q + 1) * unit

round : ℕ → ℕ
unfolding exponent nearest
round n = nearest (2 ^ exponent n n) n

unfoldable pub number : ℤ → ℤ
unfolding round
number (pos n) = pos (round n)
number (negsuc n) = negsuc (round (suc n) - 1)

-- `a + b` of two doubles
unfoldable pub plus : ℤ → ℤ → ℤ
plus a b = number (a +ℤ b)

-- `Number.isSafeInteger`: below 2^53 in magnitude
pub record IsSafe (z : ℤ) : Type 0 where
  pub above : pos_part z < 2 ^ 53
  pub below : neg_part z < 2 ^ 53

exponent_of_small : (fuel n : ℕ) → n < 2 ^ 53 → exponent fuel n ≡ 0
unfolding exponent
exponent_of_small zero n h = refl
exponent_of_small (suc fuel) n h = ground arith

nearest_one : (n : ℕ) → nearest 1 n ≡ n
unfolding nearest
nearest_one n = ground arith

round_of_small : (n : ℕ) → n < 2 ^ 53 → round n ≡ n
round_of_small n h = unfold round in rw (exponent_of_small n n h) (nearest_one n)

pub number_of_IsSafe : (z : ℤ) → IsSafe z → number z ≡ z
unfolding number
number_of_IsSafe (pos n) h = rw (round_of_small n h.above)
number_of_IsSafe (negsuc n) h = rw (round_of_small (suc n) h.below) (ground arith)

pub number_of_natural : (n : ℕ) → n < 2 ^ 53 → number (pos n) ≡ pos n
unfolding number
number_of_natural n h = ap pos (round_of_small n h)

-- 2^53 + 1 is no double: it is rounded to the even neighbour.
rounds_to_even : number (pos (2 ^ 53 + 1)) ≡ pos (2 ^ 53)
unfolding number exponent nearest
rounds_to_even = refl
