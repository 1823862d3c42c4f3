-- ===== src/Client/Validators.antt =====
-- clients/typescript/src/validators.ts with the limits of constants.ts. Each check returns or throws
-- a `ValidationError`, of which the message is kept.
pub mod Laws
use multi_delegator.Base.{
  ℕ, zero, suc, ◌^◌, String, Bool, ◌&&◌, List, [], ◌∷◌, ltb, if◌then◌else◌, or_else, length,
  get_elem?,
}
use multi_delegator.Base.Int.{ℤ, pos, pos_part, neg_part, leb_ℤ}
use multi_delegator.Base.Result.{Result, ok, throw, ◌>>=◌, ◌>>◌}
use multi_delegator.Js.Decimal.{template, to_string}
use multi_delegator.Client.Types.{Quantity, bigint, whole, fractional}

abbrev pub zero_address : String
zero_address = "11111111111111111111111111111111"

abbrev pub max_plan_destinations : ℕ
max_plan_destinations = 4

abbrev pub max_plan_pullers : ℕ
max_plan_pullers = 4

abbrev pub metadata_uri_len : ℕ
metadata_uri_len = 128

-- `BigInt(value) <= 0n`, where `BigInt` throws a RangeError on a number that is not whole; its message
-- stands here without the number
unfoldable pub assert_positive : Quantity → String → Result (Unit {0})
assert_positive (bigint z) name =
    if leb_ℤ z (pos 0) then throw (template (name ∷ " must be greater than zero" ∷ [])) else ok tt
assert_positive (whole z) name =
    if leb_ℤ z (pos 0) then throw (template (name ∷ " must be greater than zero" ∷ [])) else ok tt
assert_positive fractional name =
    throw "The number cannot be converted to a BigInt because it is not an integer"

abbrev pub is_safe_integer : ℤ → Bool
is_safe_integer z = ltb (pos_part z) (2 ^ 53) && ltb (neg_part z) (2 ^ 53)

unfoldable pub assert_safe_u64 : Quantity → String → Result (Unit {0})
assert_safe_u64 (bigint z) name = ok tt
assert_safe_u64 (whole z) name =
    if is_safe_integer z
    then ok tt
    else throw (
        template
          (name ∷ " must be a bigint or a safe integer (numbers above 2^53-1 lose precision)" ∷ []))
assert_safe_u64 fractional name = throw (
    template
      (name ∷ " must be a bigint or a safe integer (numbers above 2^53-1 lose precision)" ∷ []))

-- `utf8_length` is the length of what `TextEncoder` makes of a text
unfoldable pub assert_metadata_uri : (String → ℕ) → String → Result (Unit {0})
assert_metadata_uri utf8_length metadata_uri =
    if ltb metadata_uri_len (utf8_length metadata_uri)
    then throw "metadataUri exceeds 128 bytes"
    else ok tt

unfoldable pub assert_max_len : List String → ℕ → String → Result (Unit {0})
assert_max_len arr max_len name =
    if ltb max_len (length arr)
    then throw (template (name ∷ " must have at most " ∷ to_string (pos max_len) ∷ " entries" ∷ []))
    else ok tt

-- the elements of `Array.from` from index `i` on, `n` of them
unfoldable pub padded : List String → ℕ → ℕ → List String
padded addresses i zero = []
padded addresses i (suc n) =
    or_else (get_elem? addresses i) zero_address ∷ padded addresses (suc i) n

unfoldable pub pad_addresses : List String → ℕ → List String
unfolding padded
pad_addresses addresses max_len = padded addresses 0 max_len

unfoldable pub pad_plan_destinations : List String → Result (List String)
pad_plan_destinations addresses = do
  assert_max_len addresses max_plan_destinations "destinations"
  ok (pad_addresses addresses max_plan_destinations)

unfoldable pub pad_plan_pullers : List String → Result (List String)
pad_plan_pullers addresses = do
  assert_max_len addresses max_plan_pullers "pullers"
  ok (pad_addresses addresses max_plan_pullers)
