-- ===== src/Base/Result.antt =====
-- A call that may throw: its value, or the message of the `Error` thrown.
use Prim.Native.String.{String}
use mathlib.Core.Path.{◌≡◌, refl, ap}

pub data Result {ℓ} (T : Type ℓ) : Type ℓ where
  throw : (message : String) → Result T
  ok : (value : T) → Result T

-- what follows an `await`, and what follows a check
infixl 5 ◌>>=◌ ◌>>◌
abbrev pub ◌>>=◌ {ℓ κ} : {T : Type ℓ} {U : Type κ} → Result T → (T → Result U) → Result U
throw message >>= next = throw message
ok value >>= next = next value

-- The value on which a chain went on, from the value that it returned.
pub >>=-eq-ok {ℓ κ} :
    {T : Type ℓ} {U : Type κ} (first : Result T) (next : T → Result U) {u : U}
    → (first >>= next) ≡ ok u
    → (t : T) × (first ≡ ok t) × (next t ≡ ok u)
>>=-eq-ok (throw message) next returned = cc
>>=-eq-ok (ok value) next returned = (value, refl, returned)

abbrev pub ◌>>◌ {κ} : {U : Type κ} → Result (Unit {0}) → Result U → Result U
check >> after = check >>= λ _. after

pub >>-eq-ok {κ} :
    {U : Type κ} (check : Result (Unit {0})) (after : Result U) {u : U}
    → (check >> after) ≡ ok u
    → (check ≡ ok tt) × (after ≡ ok u)
>>-eq-ok (throw message) after returned = cc
>>-eq-ok (ok tt) after returned = (refl, returned)

value_or {ℓ} : {T : Type ℓ} → T → Result T → T
value_or d (throw message) = d
value_or d (ok value) = value

pub ok_inj {ℓ} : {T : Type ℓ} {s t : T} → Result.ok s ≡ ok t → s ≡ t
unfolding value_or
ok_inj {s = s} h = ap (value_or s) h
