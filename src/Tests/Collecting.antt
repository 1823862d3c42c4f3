-- ===== src/Tests/Collecting.antt =====
-- Runs of the collection code of the webapp at concrete inputs.
use multi_delegator.Base.{
  ℕ, ◌≤◌, ◌<◌, String, ◌≡◌, refl, ◌≢◌, ◌↔◌, ◌⊎◌, inl, inr, true, false, Option, none, some, List,
  [], ◌∷◌, arith, str_eq, if◌then◌else◌, length, take, keep_if, sum_of,
}
use multi_delegator.Base.Int.{pos, ◌+ℤ◌, ◌-ℤ◌, scale, ◌≤ℤ◌, ◌<ℤ◌}
use multi_delegator.Base.Result.{ok}
use multi_delegator.Terms.{is_still_collectible_subscription, time_drift_allowed_secs}
use multi_delegator.Js.Number.{IsSafe}
use multi_delegator.Base.Dict.{values}
use multi_delegator.Collect.History.{
  absent, max_records, CollectionTransferInput, CollectionRecord, HistoryStorage,
  get_collection_history, add_collection_record, create_success_record, create_failure_record,
  failed,
}
use multi_delegator.Js.Value.{arr, nil, obj, null, prop, str, end, Value, is_record, object_values}
use mathlib.Core.List.{Memᴰ}
use mathlib.Core.List.Memᴰ
use multi_delegator.Collect.Cache.{
  entry_of as failure_entry, CachedFailure, failure_cache_storage_key, is_cached_failure_map,
  read_failure_cache, cache_key, read_cached_failure, write_cached_failure, clear_cached_failure,
}
use multi_delegator.Collect.Types.{
  PlanSubscriberForCollection, PlanTermsFingerprint, CollectableSubscriber, ParsedTokenAccount,
}
use multi_delegator.Collect.Eligibility.{
  compute_eligible_subscribers, get_stale_plan_subscribers, period_end, collect_amount,
}
use multi_delegator.Collect.Eligibility.Laws.{
  IsEligible, entry_of, compute_eligible_subscribers_exact, compute_eligible_subscribers-stale,
  compute_eligible_subscribers_bounds, compute_eligible_subscribers_still_collectible,
}
use multi_delegator.Collect.Cache.Laws.{
  IsUsable, read_cached_failure-write_cached_failure, read_cached_failure-clear_cached_failure,
  write_cached_failure_array,
}
use multi_delegator.Collect.Readiness.{settle, is_truthy, is_cached_state}
use multi_delegator.Collect.Readiness.Order.{settle_after_other}
use multi_delegator.Collect.Send.{
  SubscriberTransfer, signed, failed, Instruction, Outcome, Call, initial,
  send_batched_subscriber_instructions,
}
use multi_delegator.Collect.Send.Laws.{
  HasOwnInstructions, send_batched_subscriber_instructions-Settled,
}
use multi_delegator.Collect.Send.Settling.{Settled}
use multi_delegator.Packer.{pack_instruction_batches_with_items}
use multi_delegator.Packer.Laws.{Packed, pack_instruction_batches_with_items-Packed}
use multi_delegator.Base.Dict
use multi_delegator.Js.Storage.{Storage, get_item, json}
use multi_delegator.Base.Dict.{Dict}
use multi_delegator.Collect.Account.{parse_token_account, token_state_hash}
use multi_delegator.Collect.Readiness.Laws.{IsPayable, settle-no-failure_iff}
use multi_delegator.Collect.Results.{
  ConfirmedPlanTransfer, PlanCollectionTotal, PlanPaymentCollectionResult, add_totals, includes,
  with_transfer, add_transfers, close_plan, close_plans, create_all_plan_payment_collection_result,
}
use multi_delegator.Collect.Results.Laws.{
  IsPlanResult, create_all_plan_payment_collection_result-IsPlanResult,
  create_all_plan_payment_collection_result_sums,
}
use multi_delegator.Collect.History.Laws.{
  get_collection_history-add_collection_record, IsSuccessRecord,
  create_success_record-IsSuccessRecord,
}

abbrev terms : PlanTermsFingerprint
terms = record { amount = pos 10; period_hours = pos 24; created_at = pos 5 }

abbrev alice : PlanSubscriberForCollection
alice = record {
  subscription_address = "sub-a";
  delegator = "alice";
  terms = terms;
  amount_pulled_in_period = pos 4;
  current_period_start_ts = pos 1000;
  expires_at_ts = pos 0;
}

alice-IsEligible : IsEligible terms (pos 1500) alice
unfolding collect_amount period_end ◌-ℤ◌ scale multi_delegator.Js.Number.plus
    multi_delegator.Js.Number.number ◌+ℤ◌
alice-IsEligible = record { alive = inl refl; same_terms = refl; owed = omega arith }

compute_eligible_subscribers_exact_example :
    Memᴰ
      (entry_of terms (pos 1500) alice)
      (compute_eligible_subscribers (alice ∷ []) terms (pos 1500))
compute_eligible_subscribers_exact_example =
    (compute_eligible_subscribers_exact (alice ∷ []) terms (pos 1500)
        (entry_of terms (pos 1500) alice) (omega arith) (omega arith)).1
      (alice, Memᴰ.head refl, alice-IsEligible, refl)

compute_eligible_subscribers-stale_example :
    compute_eligible_subscribers (get_stale_plan_subscribers (alice ∷ []) terms) terms (pos 1500)
    ≡ []
compute_eligible_subscribers-stale_example =
    compute_eligible_subscribers-stale (alice ∷ []) terms (pos 1500)

alice-IsSelected :
    Memᴰ
      (entry_of terms (pos 1500) alice)
      (compute_eligible_subscribers (alice ∷ []) terms (pos 1500))
alice-IsSelected =
    (compute_eligible_subscribers_exact (alice ∷ []) terms (pos 1500)
        (entry_of terms (pos 1500) alice) (omega arith) (omega arith)).1
      (alice, Memᴰ.head refl, alice-IsEligible, refl)

only_alice :
    (P : PlanSubscriberForCollection → Type 0)
    → P alice
    → (sub : PlanSubscriberForCollection) → Memᴰ sub (alice ∷ [])
    → P sub
only_alice P h sub listed = elim (Memᴰ.cases_cons listed) [
  | inl here ↦ rw here h
  | inr later ↦ absurd (Memᴰ.not-nil later)
]

compute_eligible_subscribers_bounds_example :
    (pos 0 <ℤ collect_amount alice terms (pos 1500))
    × (collect_amount alice terms (pos 1500) ≤ℤ pos 10)
compute_eligible_subscribers_bounds_example =
    compute_eligible_subscribers_bounds (alice ∷ []) terms (pos 1500)
      (entry_of terms (pos 1500) alice)
      (only_alice (λ sub. pos 0 ≤ℤ sub.amount_pulled_in_period) (omega arith)) alice-IsSelected

compute_eligible_subscribers_still_collectible_example :
    (sub : PlanSubscriberForCollection) × Memᴰ sub (alice ∷ [])
    × (sub.subscription_address ≡ "sub-a")
    × (is_still_collectible_subscription sub.expires_at_ts (some (pos 1500)) (pos 9999) ≡ true)
unfolding ◌+ℤ◌
compute_eligible_subscribers_still_collectible_example =
    compute_eligible_subscribers_still_collectible (alice ∷ []) terms (pos 1500) (pos 9999)
      (entry_of terms (pos 1500) alice)
      (only_alice
        (λ sub. IsSafe sub.expires_at_ts × IsSafe (sub.expires_at_ts +ℤ time_drift_allowed_secs))
        (
          record { above = omega arith; below = omega arith },
          record { above = omega arith; below = omega arith },
        ))
      alice-IsSelected

abbrev pub empty_storage : Storage
empty_storage = record { available = true; writable = true; items = [] }

empty_storage-IsUsable : IsUsable empty_storage
unfolding read_failure_cache get_item Dict.get
empty_storage-IsUsable = record { is_available = refl; is_writable = refl; is_object = tt }

abbrev pub bob : CollectableSubscriber
bob = record { subscription_address = "sub-b"; delegator = "bob"; amount = pos 6 }

abbrev carol : CollectableSubscriber
carol = record { subscription_address = "sub-c"; delegator = "carol"; amount = pos 7 }

abbrev failure : CachedFailure
failure = record {
  reason = "wrong_mint";
  message = "Subscriber token account mint does not match the plan mint";
  state_hash = "hash";
  failed_at = pos 3;
}

read_cached_failure-write_cached_failure_example :
    read_cached_failure (write_cached_failure empty_storage bob failure) carol ≡ (
      if str_eq (cache_key bob) (cache_key carol)
      then some (failure_entry failure)
      else read_cached_failure empty_storage carol)
read_cached_failure-write_cached_failure_example =
    read_cached_failure-write_cached_failure empty_storage bob carol failure empty_storage-IsUsable

read_cached_failure-clear_cached_failure_example :
    read_cached_failure (clear_cached_failure empty_storage bob) carol ≡ (
      if str_eq (cache_key bob) (cache_key carol)
      then none
      else read_cached_failure empty_storage carol)
read_cached_failure-clear_cached_failure_example =
    read_cached_failure-clear_cached_failure empty_storage bob carol refl refl

abbrev array_storage : Storage
array_storage = record empty_storage {
  items = Dict.put [] failure_cache_storage_key (json (arr nil));
}

array_storage_reads : read_failure_cache array_storage ≡ arr nil
unfolding read_failure_cache get_item is_cached_failure_map is_record object_values Dict.get
    Dict.put
array_storage_reads = refl

write_cached_failure_array_example :
    read_cached_failure (write_cached_failure array_storage bob failure) bob ≡ none
write_cached_failure_array_example =
    write_cached_failure_array array_storage bob failure nil array_storage_reads

abbrev parsed_account : ParsedTokenAccount
parsed_account = record {
  mint = "other-mint";
  owner = "bob";
  balance = pos 100;
  delegate = some "authority";
  delegated_amount = pos 100;
}

keys_differ : cache_key carol ≢ cache_key bob
unfolding cache_key
keys_differ h = cc

settle_after_other_example :
    (settle
      (pos 3)
      bob
      "ata-b"
      "mint"
      "bob"
      "authority-b"
      null
      (settle (pos 3) carol "ata-c" "mint" "carol" "authority-c" null empty_storage).1).0
    ≡ (settle (pos 3) bob "ata-b" "mint" "bob" "authority-b" null empty_storage).0
settle_after_other_example =
    settle_after_other (pos 3) "mint" empty_storage bob carol "ata-b" "bob" "authority-b" "ata-c"
      "carol" "authority-c" null null empty_storage-IsUsable keys_differ

abbrev pub amount_value : String → Value
amount_value amount = obj (prop "amount" (str amount) end)

abbrev pub account_value : Value
account_value = obj (
    prop "data"
      (obj (
        prop "parsed"
          (obj (
            prop "info"
              (obj (
                prop "mint" (str "mint") (
                  prop "owner" (str "bob") (
                    prop "tokenAmount" (amount_value "100") (
                      prop "delegate" (str "authority")
                        (prop "delegatedAmount" (amount_value "100") end))))))
              end))
          end))
      end)

settle-no-failure_iff_example :
    ((settle (pos 3) bob "ata" "mint" "bob" "authority" account_value empty_storage).0.failure
      ≡ none)
    ↔ ((is_truthy account_value ≡ true)
        × ((parsed : ParsedTokenAccount) × (parse_token_account account_value ≡ some parsed)
            × IsPayable parsed (pos 6) "mint" "bob" "authority"
            × (is_cached_state
                  (read_cached_failure empty_storage bob)
                  (token_state_hash parsed (pos 6))
                ≡ false)))
settle-no-failure_iff_example =
    settle-no-failure_iff (pos 3) bob "ata" "mint" "bob" "authority" account_value empty_storage

abbrev transfer_1 : SubscriberTransfer
transfer_1 = record { subscriber = bob; instruction = record { ref = 1; bytes = 1 ∷ [] } }

abbrev transfer_2 : SubscriberTransfer
transfer_2 = record { subscriber = carol; instruction = record { ref = 2; bytes = 2 ∷ [] } }

-- one instruction is sent; two fail in simulation
abbrev network : List Call → List Instruction → Outcome
network calls (ix ∷ []) = signed "signature"
network calls ixs = failed "Transaction simulation failed: out of funds"

abbrev wire_text : List Instruction → Option (List ℕ)
wire_text ixs = some (65 ∷ 65 ∷ 65 ∷ 65 ∷ [])

own_instructions : HasOwnInstructions (transfer_1 ∷ transfer_2 ∷ [])
own_instructions = (((λ h. cc), tt), (tt, tt))

send_batched_subscriber_instructions-Settled_example :
    Settled (transfer_1 ∷ transfer_2 ∷ []) (initial empty_storage) (
      send_batched_subscriber_instructions network wire_text
        (transfer_1 ∷ transfer_2 ∷ [])
        empty_storage)
send_batched_subscriber_instructions-Settled_example =
    send_batched_subscriber_instructions-Settled network wire_text (transfer_1 ∷ transfer_2 ∷ [])
      empty_storage own_instructions

pack_instruction_batches_with_items-Packed_example :
    Packed {I = ℕ}
      (λ ixs. some (65 ∷ 65 ∷ 65 ∷ 65 ∷ []))
      {T = ℕ}
      (λ n. n)
      (pack_instruction_batches_with_items
        (λ ixs. some (65 ∷ 65 ∷ 65 ∷ 65 ∷ []))
        (λ n. n)
        (1 ∷ 2 ∷ [])
        (9 ∷ []))
pack_instruction_batches_with_items-Packed_example =
    pack_instruction_batches_with_items-Packed (λ ixs. some (65 ∷ 65 ∷ 65 ∷ 65 ∷ [])) (λ n. n)
      (1 ∷ 2 ∷ []) (9 ∷ [])

abbrev paid : ConfirmedPlanTransfer
paid = record {
  plan_address = "plan";
  subscription_address = "sub-b";
  delegator = "bob";
  amount = pos 6;
  batch_index = 0;
  signature = "signature";
}

abbrev plan_total : PlanCollectionTotal
plan_total = record { plan_address = "plan"; total = 2 }

create_all_plan_payment_collection_result_sums_example :
    let r =
      create_all_plan_payment_collection_result
        (plan_total ∷ [])
        (paid ∷ [])
        ("signature" ∷ [])
        false in
    (sum_of (λ p. p.total) (values r.plans) ≡ r.total)
    × (r.collected ≤ r.total)
    × ((r.partial ≡ true) ↔ ((false ≡ true) ⊎ (r.collected < r.total)))
create_all_plan_payment_collection_result_sums_example =
    create_all_plan_payment_collection_result_sums (plan_total ∷ []) (paid ∷ []) ("signature" ∷ [])
      false

abbrev plan_result : PlanPaymentCollectionResult
plan_result = record {
  plan_address = "plan";
  collected = 1;
  total = 2;
  partial = true;
  signatures = "signature" ∷ [];
  transfers = paid ∷ [];
}

plan_result_found :
    Dict.get
      (create_all_plan_payment_collection_result
        (plan_total ∷ [])
        (paid ∷ [])
        ("signature" ∷ [])
        false).plans
      "plan"
    ≡ some plan_result
unfolding create_all_plan_payment_collection_result add_totals add_transfers with_transfer
    close_plans close_plan includes Dict.get Dict.put
plan_result_found = refl

create_all_plan_payment_collection_result-IsPlanResult_example :
    IsPlanResult "plan" (paid ∷ []) plan_result
create_all_plan_payment_collection_result-IsPlanResult_example =
    create_all_plan_payment_collection_result-IsPlanResult (plan_total ∷ []) (paid ∷ [])
      ("signature" ∷ []) false "plan" plan_result plan_result_found

abbrev input_transfer : CollectionTransferInput
input_transfer = record { subscription_address = "sub-b"; amount = pos 6; signature = "signature" }

create_success_record-IsSuccessRecord_example :
    (r : CollectionRecord) × (create_success_record "id"
        (pos 9)
        "plan"
        "Plan"
        (input_transfer ∷ [])
        2
        2
      ≡ ok r)
    × IsSuccessRecord (input_transfer ∷ []) 2 2 r
create_success_record-IsSuccessRecord_example =
    create_success_record-IsSuccessRecord "id" (pos 9) "plan" "Plan" (input_transfer ∷ []) 2 2
      (omega arith, tt)

abbrev failed_run : CollectionRecord
failed_run = create_failure_record "id" (pos 9) "plan" "Plan" 2 (some "no network")

abbrev history : HistoryStorage
history = record { writable = true; stored = absent }

get_collection_history-add_collection_record_example :
    (s' : HistoryStorage) × (add_collection_record failed_run history ≡ ok s')
    × (get_collection_history s' none ≡ failed_run ∷ take 49 (get_collection_history history none))
    × (length (get_collection_history s' none) ≤ max_records)
    × ((plan_address : String)
        → plan_address ≢ ""
        → get_collection_history s' (some plan_address)
          ≡ keep_if (λ r. str_eq r.plan_address plan_address) (get_collection_history s' none))
get_collection_history-add_collection_record_example =
    get_collection_history-add_collection_record failed_run history refl
