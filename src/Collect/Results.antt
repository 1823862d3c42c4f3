-- ===== src/Collect/Results.antt =====
-- webapp/src/lib/collect-all-results.ts: the totals of a collection over all plans. Counts are
-- naturals; `plans` is an object keyed by the plans' addresses.
pub mod Laws
use multi_delegator.Base.{
  ℕ, ◌+◌, min, String, Bool, false, not, ◌||◌, Option, none, some, List, [], ◌∷◌, ◌++◌, str_eq, ltb,
  if◌then◌else◌, or_else, sum_of,
}
use multi_delegator.Base.Int.{ℤ}
use multi_delegator.Base.Dict.{Dict, get, put, values}

pub record ConfirmedPlanTransfer : Type 0 where
  pub plan_address : String
  pub subscription_address : String
  pub delegator : String
  pub amount : ℤ
  pub batch_index : ℕ
  pub signature : String

pub record PlanCollectionTotal : Type 0 where
  pub plan_address : String
  pub total : ℕ

pub record PlanPaymentCollectionResult : Type 0 where
  pub plan_address : String
  pub collected : ℕ
  pub total : ℕ
  pub partial : Bool
  pub signatures : List String
  pub transfers : List ConfirmedPlanTransfer

pub record AllPlanPaymentCollectionResult : Type 0 where
  pub signatures : List String
  pub collected : ℕ
  pub total : ℕ
  pub partial : Bool
  pub plans : Dict PlanPaymentCollectionResult
  pub transfers : List ConfirmedPlanTransfer

abbrev pub fresh_plan : String → ℕ → PlanPaymentCollectionResult
fresh_plan plan_address total = record {
  plan_address = plan_address;
  collected = 0;
  total = total;
  partial = false;
  signatures = [];
  transfers = [];
}

abbrev grown :
    PlanCollectionTotal → Option PlanPaymentCollectionResult → PlanPaymentCollectionResult
grown p none = fresh_plan p.plan_address p.total
grown p (some existing) = record existing { total = existing.total + p.total }

-- the loop over `planTotals`
unfoldable pub add_totals :
    Dict PlanPaymentCollectionResult → List PlanCollectionTotal → Dict PlanPaymentCollectionResult
add_totals plans [] = plans
add_totals plans (p ∷ ps) =
    add_totals (put plans p.plan_address (grown p (get plans p.plan_address))) ps

-- `includes`
unfoldable pub includes : List String → String → Bool
includes [] s = false
includes (t ∷ ts) s = str_eq t s || includes ts s

-- a transfer counted for its plan
unfoldable pub with_transfer :
    ConfirmedPlanTransfer → PlanPaymentCollectionResult → PlanPaymentCollectionResult
with_transfer transfer plan = record plan {
  collected = plan.collected + 1;
  transfers = plan.transfers ++ transfer ∷ [];
  signatures =
      if not (includes plan.signatures transfer.signature)
      then plan.signatures ++ transfer.signature ∷ []
      else plan.signatures;
}

-- the loop over `transfers`
unfoldable pub add_transfers :
    Dict PlanPaymentCollectionResult → List ConfirmedPlanTransfer → Dict PlanPaymentCollectionResult
unfolding with_transfer
add_transfers plans [] = plans
add_transfers plans (t ∷ ts) =
    add_transfers
      (put plans t.plan_address
        (with_transfer t (or_else (get plans t.plan_address) (fresh_plan t.plan_address 0))))
      ts

-- a plan's last step: the count is cut at the total
unfoldable pub close_plan : PlanPaymentCollectionResult → PlanPaymentCollectionResult
close_plan plan =
    let collected = min plan.collected plan.total in
    record plan { collected = collected; partial = ltb collected plan.total }

-- the loop over `Object.values(plans)`
unfoldable pub close_plans : Dict PlanPaymentCollectionResult → Dict PlanPaymentCollectionResult
unfolding close_plan
close_plans [] = []
close_plans ((k, plan) ∷ plans) = (k, close_plan plan) ∷ close_plans plans

unfoldable pub create_all_plan_payment_collection_result :
    List PlanCollectionTotal
    → List ConfirmedPlanTransfer
    → List String
    → Bool
    → AllPlanPaymentCollectionResult
unfolding add_totals add_transfers close_plans
create_all_plan_payment_collection_result plan_totals transfers signatures partial =
    let plans = close_plans (add_transfers (add_totals [] plan_totals) transfers) in
    let total = sum_of (λ p. p.total) plan_totals in
    let collected = sum_of (λ p. p.collected) (values plans) in
    record {
      signatures = signatures;
      collected = collected;
      total = total;
      partial = partial || ltb collected total;
      plans = plans;
      transfers = transfers;
    }
