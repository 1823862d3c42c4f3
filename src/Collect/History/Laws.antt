-- ===== src/Collect/History/Laws.antt =====
-- The history keeps the last fifty records, newest first; a success record adds its transfers up.
use multi_delegator.Base.{
  ℕ, ◌+◌, ◌≤◌, ◌<◌, String, ◌≡◌, refl, ap, ◌∙◌, ◌≢◌, ◌↔◌, inl, inr, true, false, ◌||◌, none, some,
  List, [], ◌∷◌, ◌++◌, map, arith, str_eq, eq_iff, Bool-cases, length, take, keep_if, sum_of, All,
  length-take, length-map,
}
use multi_delegator.Base.Int.{ℤ, pos, negsuc, pos_part, ◌+ℤ◌, ◌≤ℤ◌, eq_of_parts, int_laws}
use multi_delegator.Base.Result.{ok}
use multi_delegator.Collect.History.{
  HistoryStorage, max_records, CollectionRecord, get_collection_history, add_collection_record,
  records, all_of, CollectionTransferInput, sum_amounts, unique_from, create_success_record,
  success, partial, stored_transfer, CollectionTransfer, success_record,
}
use multi_delegator.Js.Decimal.{to_string, codes, big_int}
use multi_delegator.Js.Decimal.RoundTrip.{big_int-to_string}
use multi_delegator.Collect.Results.{includes}

-- After a record is added to a writable storage, the history is that record and the newest of those
-- before it, fifty at most; reading one plan's history gives its records among these.
pub get_collection_history-add_collection_record :
    (entry : CollectionRecord) (s : HistoryStorage)
    → s.writable ≡ true
    → (s' : HistoryStorage) × (add_collection_record entry s ≡ ok s')
      × (get_collection_history s' none ≡ entry ∷ take 49 (get_collection_history s none))
      × (length (get_collection_history s' none) ≤ max_records)
      × ((plan_address : String)
          → plan_address ≢ ""
          → get_collection_history s' (some plan_address)
            ≡ keep_if (λ r. str_eq r.plan_address plan_address) (get_collection_history s' none))
unfolding add_collection_record get_collection_history
get_collection_history-add_collection_record entry s w = (
  record s { stored = records (take max_records (entry ∷ get_collection_history s none)) },
  rw w,
  refl,
  omega (arith, length-take 49 (all_of s.stored)),
  λ plan_address h. ground (arith, eq_iff plan_address ""),
)

-- No signature stands twice.
abbrev pub IsUnique : List String → Type 0
IsUnique [] = Unit
IsUnique (x ∷ xs) = (includes xs x ≡ false) × IsUnique xs

includes-append :
    (xs : List String) (y x : String) → includes (xs ++ y ∷ []) x ≡ (includes xs x || str_eq y x)
unfolding includes
includes-append [] y x = ground arith
includes-append (z ∷ xs) y x = ground (arith, includes-append xs y x)

IsUnique-append :
    (xs : List String) (y : String) → includes xs y ≡ false → IsUnique xs → IsUnique (xs ++ y ∷ [])
unfolding includes
IsUnique-append [] y h u = (refl, tt)
IsUnique-append (x ∷ xs) y h (p, u) = (
  rw (includes-append xs y x) (ground (arith, eq_iff x y, eq_iff y x)),
  IsUnique-append xs y (ground arith) u,
)

unique_from-IsUnique : (seen xs : List String) → IsUnique seen → IsUnique (unique_from seen xs)
unfolding unique_from
unique_from-IsUnique seen [] u = u
unique_from-IsUnique seen (x ∷ xs) u = elim (Bool-cases (includes seen x)) [
  | inl old ↦ rw old (unique_from-IsUnique seen xs u)
  | inr new ↦ rw new (unique_from-IsUnique (seen ++ x ∷ []) xs (IsUnique-append seen x new u))
]

includes-unique_from :
    (seen xs : List String) (y : String)
    → includes (unique_from seen xs) y ≡ (includes seen y || includes xs y)
unfolding unique_from includes
includes-unique_from seen [] y = ground arith
includes-unique_from seen (x ∷ xs) y = elim (Bool-cases (includes seen x)) [
  | inl old ↦ rw old (ground (arith, includes-unique_from seen xs y, eq_iff x y, old))
  | inr new ↦
      rw new (ground (arith, includes-unique_from (seen ++ x ∷ []) xs y, includes-append seen x y))
]

-- what a list of non-negative amounts adds up to
abbrev pub amount_sum : List CollectionTransferInput → ℕ
amount_sum = sum_of (λ t. pos_part t.amount)

nonneg_lem : (z : ℤ) → pos 0 ≤ℤ z → z ≡ pos (pos_part z)
nonneg_lem (pos n) h = refl
nonneg_lem (negsuc n) h = absurd (omega arith)

plus_pos : (a b : ℕ) → pos a +ℤ pos b ≡ pos (a + b)
plus_pos a b = eq_of_parts (pos a +ℤ pos b) (pos (a + b)) (omega int_laws)

amount_step :
    (acc n : ℕ) (t : CollectionTransfer) (ts : List CollectionTransfer)
    → t.amount ≡ to_string (pos n)
    → sum_amounts (pos acc) (t ∷ ts) ≡ sum_amounts (pos acc +ℤ pos n) ts
unfolding sum_amounts
amount_step acc n t ts e =
    let read : big_int (codes t.amount) ≡ some (pos n) = rw e (big_int-to_string n) in
    rw (read, sum_amounts)

sum_amounts-stored :
    (acc : ℕ) (ts : List CollectionTransferInput)
    → All (λ t. pos 0 ≤ℤ t.amount) ts
    → sum_amounts (pos acc) (map stored_transfer ts) ≡ ok (pos (acc + amount_sum ts))
unfolding sum_amounts
sum_amounts-stored acc [] h = ground arith
sum_amounts-stored acc (t ∷ ts) (p, h) =
    let n = pos_part t.amount in
    amount_step acc n (stored_transfer t) (map stored_transfer ts)
      (ap to_string (nonneg_lem t.amount p))
    ∙ ap (λ z. sum_amounts z (map stored_transfer ts)) (plus_pos acc n)
    ∙ sum_amounts-stored (acc + n) ts h
    ∙ ap (λ k. ok (pos k)) (omega arith)

sum_amounts-stored_from_zero :
    (ts : List CollectionTransferInput)
    → All (λ t. pos 0 ≤ℤ t.amount) ts
    → sum_amounts (pos 0) (map stored_transfer ts) ≡ ok (pos (amount_sum ts))
sum_amounts-stored_from_zero ts h = sum_amounts-stored 0 ts h ∙ ap (λ k. ok (pos k)) (omega arith)

pub record IsSuccessRecord (transfers : List CollectionTransferInput) (total attempted : ℕ)
    (r : CollectionRecord) : Type 0 where
  pub adds_up : r.total_amount ≡ some (to_string (pos (amount_sum transfers)))
  pub counts : r.subscribers_collected ≡ length transfers
  pub within :
      (length transfers ≤ r.subscribers_total)
      × (total ≤ r.subscribers_total)
      × (attempted ≤ r.subscribers_total)
  pub complete : (r.status ≡ success) ↔ (attempted ≤ length transfers)
  pub short : (r.status ≡ partial) ↔ (length transfers < attempted)
  pub unique : IsUnique r.signatures
  pub covers :
      (x : String) → includes r.signatures x ≡ includes (map (λ t. t.signature) transfers) x

map-signature_stored :
    (ts : List CollectionTransferInput)
    → map (λ t. t.signature) (map stored_transfer ts) ≡ map (λ t. t.signature) ts
map-signature_stored [] = refl
map-signature_stored (t ∷ ts) = ap (λ r. t.signature ∷ r) (map-signature_stored ts)

success_record-IsSuccessRecord :
    (id : String) (timestamp : ℤ) (plan_address plan_name : String)
    (transfers : List CollectionTransferInput) (total attempted : ℕ)
    → IsSuccessRecord transfers total attempted (
        success_record id timestamp plan_address plan_name transfers total attempted
          (pos (amount_sum transfers)))
unfolding success_record
success_record-IsSuccessRecord id timestamp plan_address plan_name transfers total attempted =
    let n = length-map stored_transfer transfers in
    record {
      adds_up = refl;
      counts = n;
      within = (omega (arith, n), omega (arith, n), omega (arith, n));
      complete = ground (arith, n);
      short = ground (arith, n);
      unique = unique_from-IsUnique [] (map (λ t. t.signature) (map stored_transfer transfers)) tt;
      covers = λ x.
          rw (includes-unique_from [] (map (λ t. t.signature) (map stored_transfer transfers)) x)
            (rw (map-signature_stored transfers) (unfold includes in refl));
    }

-- For transfers of non-negative amounts the record is built: the text of its total amount is that of
-- their sum; its counts are the transfers made and at least what was planned and attempted; it is a
-- success when nothing attempted is missing and partial when something is; its signatures are those
-- of the transfers, each once.
pub create_success_record-IsSuccessRecord :
    (id : String) (timestamp : ℤ) (plan_address plan_name : String)
    (transfers : List CollectionTransferInput) (total attempted : ℕ)
    → All (λ t. pos 0 ≤ℤ t.amount) transfers
    → (r : CollectionRecord) × (create_success_record id timestamp plan_address plan_name transfers
          total attempted
        ≡ ok r)
      × IsSuccessRecord transfers total attempted r
unfolding create_success_record
create_success_record-IsSuccessRecord id timestamp plan_address plan_name transfers total attempted
      h =
    (
      success_record id timestamp plan_address plan_name transfers total attempted
          (pos (amount_sum transfers)),
      rw (sum_amounts-stored_from_zero transfers h),
      success_record-IsSuccessRecord id timestamp plan_address plan_name transfers total attempted,
    )
