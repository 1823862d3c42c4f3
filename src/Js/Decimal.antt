-- ===== src/Js/Decimal.antt =====
-- Decimal text: `x.toString()` of a bigint and `BigInt(text)`, over code points.
pub mod RoundTrip
use multi_delegator.Base.{
  ℕ, zero, suc, ◌+◌, ◌-◌, ◌*◌, ◌/◌, ◌%◌, String, ◌≡◌, refl, Bool, true, ◌&&◌, ◌||◌, Option, none,
  some, List, [], ◌∷◌, ◌++◌, ltb, leb, ◌==◌, if◌then◌else◌,
}
use multi_delegator.Base.Int.{ℤ, pos, negsuc}
use Prim.Native.Char.{code}
use Prim.Native.String
use mathlib.Core.List.{reverse}

abbrev pub codes : String → List ℕ
codes String.[] = []
codes (String.◌∷◌ c s) = code c ∷ codes s

-- the decimal digits of `n`, which has at most `fuel` of them
unfoldable pub digits : ℕ → ℕ → List ℕ
digits zero n = []
digits (suc fuel) n =
    let more = digits fuel (n / 10) ++ (n % 10 + b'0') ∷ [] in
    if ltb n 10 then (n + b'0') ∷ [] else more

-- `n.toString()`: a number below 10^n has at most n digits, and 0 has one
unfoldable pub to_text : ℕ → List ℕ
unfolding digits
to_text n = digits (suc n) n

unfoldable pub is_digit : ℕ → Bool
is_digit c = leb b'0' c && leb c b'9'

-- the value of digits in a radix, after those read before
unfoldable pub value_from : ℕ → ℕ → List ℕ → ℕ
value_from radix acc [] = acc
value_from radix acc (d ∷ ds) = value_from radix (acc * radix + d) ds

-- the digit that a character stands for; 36 and more where it is none
digit_of : ℕ → ℕ
digit_of c =
    if is_digit c
    then c - b'0'
    else if leb b'a' c && leb c b'z'
    then c - b'a' + 10
    else if leb b'A' c && leb c b'Z'
    then c - b'A' + 10
    else 36

abbrev all_below : ℕ → List ℕ → Bool
all_below radix [] = true
all_below radix (d ∷ ds) = ltb d radix && all_below radix ds

abbrev map_digits : (ℕ → ℕ) → List ℕ → List ℕ
map_digits f [] = []
map_digits f (c ∷ cs) = f c ∷ map_digits f cs

-- one digit or more in the radix
unfoldable pub parse_radix : ℕ → List ℕ → Option ℕ
unfolding digit_of is_digit value_from
parse_radix radix [] = none
parse_radix radix (c ∷ cs) =
    let ds = map_digits digit_of (c ∷ cs) in
    if all_below radix ds then some (value_from radix 0 ds) else none

-- white space of ASCII, and the no-break space and byte order mark
unfoldable pub is_space : ℕ → Bool
is_space c = (leb 9 c && leb c 13) || c == 32 || c == 160 || c == 65279

skip_space : List ℕ → List ℕ
skip_space [] = []
skip_space (c ∷ cs) = let rest = skip_space cs in if is_space c then rest else c ∷ cs

-- `text.trim()`
unfoldable pub trim : List ℕ → List ℕ
unfolding skip_space is_space
trim cs = reverse (skip_space (reverse (skip_space cs)))

unsigned : List ℕ → Option ℕ
unsigned (zero' ∷ x ∷ cs) =
    if zero' == b'0' && (x == b'x' || x == b'X')
    then parse_radix 16 cs
    else if zero' == b'0' && (x == b'o' || x == b'O')
    then parse_radix 8 cs
    else if zero' == b'0' && (x == b'b' || x == b'B')
    then parse_radix 2 cs
    else parse_radix 10 (zero' ∷ x ∷ cs)
unsigned cs = parse_radix 10 cs

abbrev negate : ℕ → ℤ
negate zero = pos 0
negate (suc n) = negsuc n

abbrev signed : (ℕ → ℤ) → Option ℕ → Option ℤ
signed f none = none
signed f (some n) = some (f n)

big_int_trimmed : List ℕ → Option ℤ
unfolding unsigned parse_radix
big_int_trimmed [] = some (pos 0)
big_int_trimmed (c ∷ cs) =
    if c == b'-'
    then signed negate (parse_radix 10 cs)
    else if c == b'+'
    then signed pos (parse_radix 10 cs)
    else signed pos (unsigned (c ∷ cs))

-- `BigInt(text)`, where `none` is the SyntaxError
unfoldable pub big_int : List ℕ → Option ℤ
unfolding big_int_trimmed trim
big_int cs = big_int_trimmed (trim cs)

big_int_tests :
    (big_int (codes " 42 ") ≡ some (pos 42))
    × (big_int (codes "-7") ≡ some (negsuc 6))
    × (big_int (codes "") ≡ some (pos 0))
    × (big_int (codes "0x1F") ≡ some (pos 31))
    × (big_int (codes "1.5") ≡ none)
    × (big_int (codes "-") ≡ none)
unfolding big_int
big_int_tests = (refl, refl, refl, refl, refl, refl)

to_text_test : to_text 1204 ≡ codes "1204"
unfolding to_text
to_text_test = refl

digit_text : ℕ → String
digit_text n =
    if n == 0
    then "0"
    else if n == 1
    then "1"
    else if n == 2
    then "2"
    else if n == 3
    then "3"
    else if n == 4
    then "4"
    else if n == 5
    then "5"
    else if n == 6
    then "6"
    else if n == 7
    then "7"
    else if n == 8
    then "8"
    else "9"

-- a template literal: its parts, joined
abbrev pub template : List String → String
template [] = ""
template (s ∷ []) = s
template (s ∷ t ∷ ts) = String.◌++◌ s (template (t ∷ ts))

string_from : ℕ → ℕ → String
unfolding digit_text
string_from zero n = ""
string_from (suc fuel) n =
    let more = String.◌++◌ (string_from fuel (n / 10)) (digit_text (n % 10)) in
    if ltb n 10 then digit_text n else more

-- `z.toString()` of a bigint, as a text
unfoldable pub to_string : ℤ → String
unfolding string_from
to_string (pos n) = string_from (suc n) n
to_string (negsuc n) = String.◌++◌ "-" (string_from (suc (suc n)) (suc n))

to_string_test : to_string (negsuc 1203) ≡ "-1204"
unfolding to_string
to_string_test = refl
