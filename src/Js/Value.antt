-- ===== src/Js/Value.antt =====
-- Values of type `unknown`: what `JSON.parse` or a JSON-RPC call returns. Numbers are whole.
-- An array has none of the properties that the program asks for.
use multi_delegator.Base.{
  String, ◌≡◌, refl, Bool, true, false, Option, none, some, List, [], ◌∷◌, arith, str_eq, eq_iff,
  if◌then◌else◌,
}
use multi_delegator.Base.Int.{ℤ}

mutual
  pub data Value : Type 0 where
    undefined : Value
    null : Value
    bool : Bool → Value
    num : ℤ → Value
    str : String → Value
    arr : Elems → Value
    obj : Props → Value

  pub data Elems : Type 0 where
    nil : Elems
    cons : Value → Elems → Elems

  pub data Props : Type 0 where
    end : Props
    prop : String → Value → Props → Props

abbrev pub elems : Elems → List Value
elems nil = []
elems (cons v vs) = v ∷ elems vs

abbrev pub of_list : List Value → Elems
of_list [] = nil
of_list (v ∷ vs) = cons v (of_list vs)

abbrev pub props : Props → List (String × Value)
props end = []
props (prop k v ps) = (k, v) ∷ props ps

abbrev pub of_entries : List (String × Value) → Props
of_entries [] = end
of_entries ((k, v) ∷ es) = prop k v (of_entries es)

find_prop : String → Props → Value
find_prop k end = undefined
find_prop k (prop j v ps) = if str_eq j k then v else find_prop k ps

-- `typeof value === 'object' && value !== null`
unfoldable pub is_record : Value → Bool
is_record (arr vs) = true
is_record (obj ps) = true
is_record _ = false

-- `value[key]`
unfoldable pub field : Value → String → Value
unfolding find_prop
field (obj ps) k = find_prop k ps
field _ k = undefined

-- `typeof value === 'string' ? value : null`
unfoldable pub string? : Value → Option String
string? (str s) = some s
string? _ = none

-- `typeof value === 'number' ? value : null`
unfoldable pub number? : Value → Option ℤ
number? (num z) = some z
number? _ = none

abbrev pub second {ℓ} : {A : Type ℓ} → List (String × A) → List A
second [] = []
second ((k, v) ∷ es) = v ∷ second es

-- `Object.values(value)` of an object or an array
unfoldable pub object_values : Value → List Value
object_values (arr vs) = elems vs
object_values (obj ps) = second (props ps)
object_values _ = []

unfoldable pub set_prop : String → Value → Props → Props
set_prop k w end = prop k w end
set_prop k w (prop j v ps) = if str_eq j k then prop j w ps else prop j v (set_prop k w ps)

unfoldable pub remove_prop : String → Props → Props
remove_prop k end = end
remove_prop k (prop j v ps) =
    let rest = remove_prop k ps in if str_eq j k then rest else prop j v rest

has_prop : String → Props → Bool
has_prop k end = false
has_prop k (prop j v ps) = if str_eq j k then true else has_prop k ps

-- `value[key] = w`, as `JSON.stringify` sees it: it drops the named properties of an array
unfoldable pub set_field : Value → String → Value → Value
unfolding set_prop
set_field (obj ps) k w = obj (set_prop k w ps)
set_field v k w = v

-- `delete value[key]`
unfoldable pub remove_field : Value → String → Value
unfolding remove_prop
remove_field (obj ps) k = obj (remove_prop k ps)
remove_field v k = v

-- `key in value`
unfoldable pub has_field : Value → String → Bool
unfolding has_prop
has_field (obj ps) k = has_prop k ps
has_field _ k = false

-- an object literal's value, neither an array nor a scalar
abbrev pub IsObject : Value → Type 0
IsObject (obj ps) = Unit
IsObject _ = ⊥

find_prop-set_prop :
    (k j : String) (w : Value) (ps : Props)
    → find_prop j (set_prop k w ps) ≡ (if str_eq k j then w else find_prop j ps)
unfolding find_prop set_prop
find_prop-set_prop k j w end = refl
find_prop-set_prop k j w (prop i v ps) =
    ground (arith, find_prop-set_prop k j w ps, eq_iff i k, eq_iff i j, eq_iff k j)

find_prop-remove_prop :
    (k j : String) (ps : Props)
    → find_prop j (remove_prop k ps) ≡ (if str_eq k j then undefined else find_prop j ps)
unfolding find_prop remove_prop
find_prop-remove_prop k j end = ground arith
find_prop-remove_prop k j (prop i v ps) =
    ground (arith, find_prop-remove_prop k j ps, eq_iff i k, eq_iff i j, eq_iff k j)

find_prop_of_not_has :
    (k : String) (ps : Props) → has_prop k ps ≡ false → find_prop k ps ≡ undefined
unfolding find_prop has_prop
find_prop_of_not_has k end h = refl
find_prop_of_not_has k (prop i v ps) h = ground (arith, find_prop_of_not_has k ps)

pub field-set_field :
    (v w : Value) (k j : String)
    → IsObject v
    → field (set_field v k w) j ≡ (if str_eq k j then w else field v j)
unfolding field set_field
field-set_field (obj ps) w k j h = find_prop-set_prop k j w ps
field-set_field undefined w k j h = absurd h
field-set_field null w k j h = absurd h
field-set_field (bool b) w k j h = absurd h
field-set_field (num z) w k j h = absurd h
field-set_field (str s) w k j h = absurd h
field-set_field (arr vs) w k j h = absurd h

pub field-remove_field :
    (v : Value) (k j : String)
    → field (remove_field v k) j ≡ (if str_eq k j then undefined else field v j)
unfolding field remove_field
field-remove_field (obj ps) k j = find_prop-remove_prop k j ps
field-remove_field _ k j = ground arith

pub field_of_not_has : (v : Value) (k : String) → has_field v k ≡ false → field v k ≡ undefined
unfolding field has_field
field_of_not_has (obj ps) k h = find_prop_of_not_has k ps h
field_of_not_has _ k h = refl
