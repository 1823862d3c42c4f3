-- ===== src/Client/Validators/Laws.antt =====
-- What a padded address array of validators.ts holds, and when the checks pass.
use multi_delegator.Base.{
  ℕ, zero, suc, ◌-◌, ◌≤◌, String, ◌≡◌, refl, ap, ◌∙◌, List, [], ◌∷◌, ◌++◌, arith, or_else, length,
  get_elem?,
}
use multi_delegator.Client.Validators.{pad_addresses, padded, zero_address}

-- `k` copies of the zero address
abbrev pub zeros : ℕ → List String
zeros zero = []
zeros (suc k) = zero_address ∷ zeros k

padded-nil : (i n : ℕ) → padded [] i n ≡ zeros n
unfolding padded
padded-nil i zero = refl
padded-nil i (suc n) = ap (λ r. zero_address ∷ r) (padded-nil (suc i) n)

padded-suc : (x : String) (xs : List String) (i n : ℕ) → padded (x ∷ xs) (suc i) n ≡ padded xs i n
unfolding padded
padded-suc x xs i zero = refl
padded-suc x xs i (suc n) =
    ap (λ r. or_else (get_elem? xs i) zero_address ∷ r) (padded-suc x xs (suc i) n)

minus_zero : (n : ℕ) → n - 0 ≡ n
minus_zero n = omega arith

minus_suc : (n k : ℕ) → suc n - suc k ≡ n - k
minus_suc n k = omega arith

-- An array that fits is kept as it is, in front of as many zero addresses as it lacks.
pub pad_addresses-fitting :
    (xs : List String) (n : ℕ) → length xs ≤ n → (pad_addresses xs n ≡ xs ++ zeros (n - length xs))
unfolding pad_addresses padded
pad_addresses-fitting [] n h = rw (minus_zero n) (padded-nil 0 n)
pad_addresses-fitting (x ∷ xs) zero h = absurd (omega arith)
pad_addresses-fitting (x ∷ xs) (suc n) h =
    rw (minus_suc n (length xs))
      (ap (λ r. x ∷ r) (padded-suc x xs 0 n ∙ pad_addresses-fitting xs n (omega arith)))

length-padded : (xs : List String) (i n : ℕ) → length (padded xs i n) ≡ n
unfolding padded
length-padded xs i zero = refl
length-padded xs i (suc n) = ap suc (length-padded xs (suc i) n)

pub length-pad_addresses : (xs : List String) (n : ℕ) → length (pad_addresses xs n) ≡ n
unfolding pad_addresses
length-pad_addresses xs n = length-padded xs 0 n

-- the address array that a plan stores: four entries
abbrev pub filled_up : List String → List String
filled_up xs = xs ++ zeros (4 - length xs)
