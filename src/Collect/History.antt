-- ===== src/Collect/History.antt =====
-- webapp/src/lib/collection-history.ts: the last collections, kept in `localStorage`. What is stored
-- under its key is the text of a list of records, or a text that `JSON.parse` refuses; another
-- well-formed JSON value, which the module never writes, is left out.
pub mod Laws
use multi_delegator.Base.{
  ℕ, min, max, String, Bool, Option, none, some, List, [], ◌∷◌, ◌++◌, map, str_eq, ltb,
  if◌then◌else◌, or_else, length, take, keep_if, all,
}
use multi_delegator.Base.Int.{ℤ, pos, ◌+ℤ◌}
use multi_delegator.Base.Result.{Result, ok, throw, ◌>>=◌}
use multi_delegator.Js.Decimal.{big_int, codes, to_string}
use multi_delegator.Collect.Results.{includes}

abbrev pub max_records : ℕ
max_records = 50

pub record CollectionTransfer : Type 0 where
  pub subscription_address : String
  pub amount : String
  pub signature : String

pub record CollectionTransferInput : Type 0 where
  pub subscription_address : String
  pub amount : ℤ
  pub signature : String

pub data Status : Type 0 where
  success partial failed : Status

pub record CollectionRecord : Type 0 where
  pub id : String
  pub timestamp : ℤ
  pub plan_address : String
  pub plan_name : String
  pub subscribers_collected : ℕ
  pub subscribers_total : ℕ
  pub amount_per_subscriber : Option ℤ
  pub total_amount : Option String
  pub transfers : Option (List CollectionTransfer)
  pub status : Status
  pub signatures : List String
  pub error : Option String

-- what `localStorage` holds under the key
pub data Stored : Type 0 where
  absent malformed : Stored
  records : List CollectionRecord → Stored

pub record HistoryStorage : Type 0 where
  pub writable : Bool
  pub stored : Stored

abbrev all_of : Stored → List CollectionRecord
all_of absent = []
all_of malformed = []
all_of (records all) = all

-- `planAddress ? all.filter(…) : all`, where no address and the empty one are the same
abbrev filtered : Option String → List CollectionRecord → List CollectionRecord
filtered none all = all
filtered (some plan_address) all =
    if str_eq plan_address "" then all else keep_if (λ r. str_eq r.plan_address plan_address) all

unfoldable pub get_collection_history : HistoryStorage → Option String → List CollectionRecord
get_collection_history s plan_address = filtered plan_address (all_of s.stored)

unfoldable pub clear_collection_history : HistoryStorage → HistoryStorage
clear_collection_history s = record s { stored = absent }

unfoldable pub add_collection_record : CollectionRecord → HistoryStorage → Result HistoryStorage
unfolding get_collection_history
add_collection_record entry s =
    let existing = get_collection_history s none in
    let updated = take max_records (entry ∷ existing) in
    if s.writable then ok (record s { stored = records updated }) else throw "QuotaExceededError"

abbrev stored_transfer : CollectionTransferInput → CollectionTransfer
stored_transfer transfer = record {
  subscription_address = transfer.subscription_address;
  amount = to_string transfer.amount;
  signature = transfer.signature;
}

-- `reduce((sum, transfer) => sum + BigInt(transfer.amount), 0n)`, where `BigInt` may throw
unfoldable pub sum_amounts : ℤ → List CollectionTransfer → Result ℤ
sum_amounts sum [] = ok sum
sum_amounts sum (t ∷ ts) = elim (big_int (codes t.amount)) [
  | none ↦ throw "SyntaxError"
  | some amount ↦ sum_amounts (sum +ℤ amount) ts
]

-- `Array.from(new Set(signatures))`, after those that are in the set
unfoldable pub unique_from : List String → List String → List String
unique_from seen [] = seen
unique_from seen (x ∷ xs) = unique_from (if includes seen x then seen else seen ++ x ∷ []) xs

-- the record that is returned, once the amounts are added up
unfoldable pub success_record :
    String → ℤ → String → String → List CollectionTransferInput → ℕ → ℕ → ℤ → CollectionRecord
unfolding unique_from
success_record id timestamp plan_address plan_name transfers subscribers_total subscribers_attempted
      total_amount =
    let stored_transfers = map stored_transfer transfers in
    let subscribers_collected = length stored_transfers in
    let effective_subscribers_total =
      max (max subscribers_total subscribers_attempted) subscribers_collected in
    let attempted = min subscribers_attempted effective_subscribers_total in
    record {
      id = id;
      timestamp = timestamp;
      plan_address = plan_address;
      plan_name = plan_name;
      subscribers_collected = subscribers_collected;
      subscribers_total = effective_subscribers_total;
      amount_per_subscriber = none;
      total_amount = some (to_string total_amount);
      transfers = some stored_transfers;
      status = if ltb subscribers_collected attempted then partial else success;
      signatures = unique_from [] (map (λ t. t.signature) stored_transfers);
      error = none;
    }

-- `id` and `timestamp` are `crypto.randomUUID()` and `Math.floor(Date.now() / 1000)`
unfoldable pub create_success_record :
    String → ℤ → String → String → List CollectionTransferInput → ℕ → ℕ → Result CollectionRecord
unfolding sum_amounts success_record
create_success_record id timestamp plan_address plan_name transfers subscribers_total
      subscribers_attempted =
    do
      total_amount ← sum_amounts (pos 0) (map stored_transfer transfers)
      ok (
          success_record id timestamp plan_address plan_name transfers subscribers_total
            subscribers_attempted total_amount)

-- `message` is the message of an `Error`, and missing where something else was thrown
unfoldable pub create_failure_record :
    String → ℤ → String → String → ℕ → Option String → CollectionRecord
create_failure_record id timestamp plan_address plan_name subscribers_total message = record {
  id = id;
  timestamp = timestamp;
  plan_address = plan_address;
  plan_name = plan_name;
  subscribers_collected = 0;
  subscribers_total = subscribers_total;
  amount_per_subscriber = none;
  total_amount = some "0";
  transfers = some [];
  status = failed;
  signatures = [];
  error = some (or_else message "Unknown error");
}
