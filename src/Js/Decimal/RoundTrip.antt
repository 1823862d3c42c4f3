-- ===== src/Js/Decimal/RoundTrip.antt =====
-- `BigInt(n.toString())` is `n`, for natural numbers.
use multi_delegator.Base.{
  ℕ, zero, suc, ◌+◌, ◌*◌, ◌/◌, ◌%◌, ◌≤◌, ◌<◌, String, ◌≡◌, refl, ap, ◌∙◌, inl, inr, true, some,
  List, [], ◌∷◌, ◌++◌, arith, ltb, Bool-cases, All,
}
use multi_delegator.Base.Int.{pos}
use Prim.Native.Char.{code}
use Prim.Native.String
use mathlib.Core.Path.{ap₂}
use mathlib.Core.List.{reverse, reverse-cons, reverse-reverse}
use text.Mathlib.TextLemmas.{nil-append, cons-append}
use multi_delegator.Js.Decimal.{
  codes, digits, is_digit, value_from, parse_radix, is_space, trim, big_int, to_string, digit_of,
  all_below, map_digits, skip_space, unsigned, big_int_trimmed, digit_text, string_from,
}

abbrev IsDigit : ℕ → Type 0
IsDigit c = (b'0' ≤ c) × (c ≤ b'9')

codes-append : (s t : String) → codes (String.◌++◌ s t) ≡ codes s ++ codes t
codes-append String.[] t = rw nil-append
codes-append (String.◌∷◌ c s) t = rw cons-append (ap (λ r. code c ∷ r) (codes-append s t))

codes-digit_text : (d : ℕ) → d < 10 → codes (digit_text d) ≡ (d + b'0') ∷ []
unfolding digit_text
codes-digit_text zero h = refl
codes-digit_text (suc zero) h = refl
codes-digit_text (suc (suc zero)) h = refl
codes-digit_text (suc (suc (suc zero))) h = refl
codes-digit_text (suc (suc (suc (suc zero)))) h = refl
codes-digit_text (suc (suc (suc (suc (suc zero))))) h = refl
codes-digit_text (suc (suc (suc (suc (suc (suc zero)))))) h = refl
codes-digit_text (suc (suc (suc (suc (suc (suc (suc zero))))))) h = refl
codes-digit_text (suc (suc (suc (suc (suc (suc (suc (suc zero)))))))) h = refl
codes-digit_text (suc (suc (suc (suc (suc (suc (suc (suc (suc zero))))))))) h = refl
codes-digit_text (suc (suc (suc (suc (suc (suc (suc (suc (suc (suc d)))))))))) h =
    absurd (omega arith)

codes-string_from : (fuel n : ℕ) → codes (string_from fuel n) ≡ digits fuel n
unfolding string_from digits
codes-string_from zero n = refl
codes-string_from (suc fuel) n = elim (Bool-cases (ltb n 10)) [
  | inl small ↦ rw small (codes-digit_text n (ground arith))
  | inr large ↦ rw large (
      codes-append (string_from fuel (n / 10)) (digit_text (n % 10))
      ∙ ap₂ (λ a b. a ++ b) (codes-string_from fuel (n / 10))
          (codes-digit_text (n % 10) (omega arith)))
]

All-append : (P : ℕ → Type 0) (xs ys : List ℕ) → All P xs → All P ys → All P (xs ++ ys)
All-append P [] ys h k = k
All-append P (x ∷ xs) ys (p, h) k = (p, All-append P xs ys h k)

All-reverse : (P : ℕ → Type 0) (xs : List ℕ) → All P xs → All P (reverse xs)
All-reverse P [] h = tt
All-reverse P (x ∷ xs) (p, h) =
    rw reverse-cons (All-append P (reverse xs) (x ∷ []) (All-reverse P xs h) (p, tt))

digits-IsDigit : (fuel n : ℕ) → All IsDigit (digits fuel n)
unfolding digits
digits-IsDigit zero n = tt
digits-IsDigit (suc fuel) n = elim (Bool-cases (ltb n 10)) [
  | inl small ↦ rw small ((omega arith, ground arith), tt)
  | inr large ↦ rw large (
      All-append IsDigit (digits fuel (n / 10)) _ (digits-IsDigit fuel (n / 10))
        ((omega arith, omega arith), tt))
]

value_from-append :
    (radix acc d : ℕ) (xs : List ℕ)
    → value_from radix acc (xs ++ d ∷ []) ≡ value_from radix acc xs * radix + d
unfolding value_from
value_from-append radix acc d [] = refl
value_from-append radix acc d (x ∷ xs) = value_from-append radix (acc * radix + x) d xs

map_digits-append :
    (f : ℕ → ℕ) (xs : List ℕ) (y : ℕ) → map_digits f (xs ++ y ∷ []) ≡ map_digits f xs ++ f y ∷ []
map_digits-append f [] y = refl
map_digits-append f (x ∷ xs) y = ap (λ r. f x ∷ r) (map_digits-append f xs y)

digit_of_digit : (d : ℕ) → d < 10 → digit_of (d + b'0') ≡ d
unfolding digit_of is_digit
digit_of_digit d h = ground arith

value-digits : (fuel n : ℕ) → n < fuel → value_from 10 0 (map_digits digit_of (digits fuel n)) ≡ n
unfolding digits
value-digits zero n h = absurd (omega arith)
value-digits (suc fuel) n h = elim (Bool-cases (ltb n 10)) [
  | inl small ↦ rw (small, digit_of_digit n (ground arith)) (unfold value_from in omega arith)
  | inr large ↦
      rw
        (
          large,
          map_digits-append digit_of (digits fuel (n / 10)) (n % 10 + b'0'),
          digit_of_digit (n % 10) (omega arith),
          value_from-append 10 0 (n % 10) (map_digits digit_of (digits fuel (n / 10))),
          value-digits fuel (n / 10) (ground arith),
        )
        (omega arith)
]

all_below-IsDigit : (xs : List ℕ) → All IsDigit xs → all_below 10 (map_digits digit_of xs) ≡ true
unfolding digit_of is_digit
all_below-IsDigit [] h = refl
all_below-IsDigit (x ∷ xs) (p, h) = ground (arith, all_below-IsDigit xs h)

skip_space-IsDigit : (xs : List ℕ) → All IsDigit xs → skip_space xs ≡ xs
unfolding skip_space is_space
skip_space-IsDigit [] h = refl
skip_space-IsDigit (x ∷ xs) (p, h) = ground arith

trim-IsDigit : (xs : List ℕ) → All IsDigit xs → trim xs ≡ xs
unfolding trim
trim-IsDigit xs h =
    rw (skip_space-IsDigit xs h, skip_space-IsDigit (reverse xs) (All-reverse IsDigit xs h))
      (reverse-reverse xs)

parse_radix-IsDigit :
    (x : ℕ) (xs : List ℕ)
    → All IsDigit (x ∷ xs)
    → parse_radix 10 (x ∷ xs) ≡ some (value_from 10 0 (map_digits digit_of (x ∷ xs)))
unfolding parse_radix
parse_radix-IsDigit x xs h = rw (all_below-IsDigit (x ∷ xs) h)

unsigned-IsDigit :
    (x : ℕ) (xs : List ℕ) → All IsDigit (x ∷ xs) → unsigned (x ∷ xs) ≡ parse_radix 10 (x ∷ xs)
unfolding unsigned
unsigned-IsDigit x [] h = refl
unsigned-IsDigit x (y ∷ ys) (p, (q, h)) = ground arith

big_int-IsDigit :
    (ds : List ℕ)
    → All IsDigit ds
    → big_int ds ≡ some (pos (value_from 10 0 (map_digits digit_of ds)))
unfolding big_int big_int_trimmed
big_int-IsDigit [] h = unfold value_from trim skip_space in refl
big_int-IsDigit (x ∷ xs) h =
    rw (trim-IsDigit (x ∷ xs) h)
      (ground (arith, h.0, unsigned-IsDigit x xs h, parse_radix-IsDigit x xs h))

-- A natural number's decimal text is read back as the number.
pub big_int-to_string : (n : ℕ) → big_int (codes (to_string (pos n))) ≡ some (pos n)
unfolding to_string
big_int-to_string n = rw (codes-string_from (suc n) n) (
    rw (big_int-IsDigit (digits (suc n) n) (digits-IsDigit (suc n) n))
      (ap (λ k. some (pos k)) (value-digits (suc n) n (omega arith))))
