-- ===== src/Collect/Results/Laws.antt =====
-- The totals of a collection over all plans add up, and each plan has its own transfers.
use multi_delegator.Base.{
  ℕ, ◌+◌, ◌≤◌, ◌<◌, min, String, ◌≡◌, refl, sym, ◌∙◌, ◌↔◌, ◌⊎◌, inl, inr, Bool, true, Option, none,
  some, List, [], ◌∷◌, ◌++◌, append-nil, append_assoc, arith, str_eq, eq_iff, ltb, Bool-cases,
  or_else, length, keep_if, sum_of, length-append,
}
use multi_delegator.Base.Dict.{Dict, get, put, values}
use multi_delegator.Collect.Results.{
  PlanPaymentCollectionResult, ConfirmedPlanTransfer, PlanCollectionTotal, add_totals,
  with_transfer, add_transfers, close_plan, close_plans, fresh_plan, grown,
  create_all_plan_payment_collection_result,
}
use multi_delegator.Base.Dict.{get-put}

abbrev Plans : Type 0
Plans = Dict PlanPaymentCollectionResult

-- the sum of the plans' totals
abbrev total_sum : Plans → ℕ
total_sum plans = sum_of (λ p. p.total) (values plans)

abbrev total_at : Option PlanPaymentCollectionResult → ℕ
total_at none = 0
total_at (some p) = p.total

total_sum-put :
    (plans : Plans) (k : String) (p : PlanPaymentCollectionResult)
    → total_sum (put plans k p) + total_at (get plans k) ≡ total_sum plans + p.total
unfolding put get values
total_sum-put [] k p = omega arith
total_sum-put ((j, q) ∷ plans) k p = ground (arith, total_sum-put plans k p)

total-grown :
    (p : PlanCollectionTotal) (o : Option PlanPaymentCollectionResult)
    → (grown p o).total ≡ total_at o + p.total
total-grown p none = omega arith
total-grown p (some q) = refl

total-with_transfer :
    (t : ConfirmedPlanTransfer) (k : String) (o : Option PlanPaymentCollectionResult)
    → (with_transfer t (or_else o (fresh_plan k 0))).total ≡ total_at o
unfolding with_transfer
total-with_transfer t k none = refl
total-with_transfer t k (some q) = refl

total_sum-add_totals :
    (plans : Plans) (ps : List PlanCollectionTotal)
    → total_sum (add_totals plans ps) ≡ total_sum plans + sum_of (λ p. p.total) ps
unfolding add_totals
total_sum-add_totals plans [] = omega arith
total_sum-add_totals plans (p ∷ ps) =
    let o = get plans p.plan_address in
    omega (
      arith,
      total_sum-add_totals (put plans p.plan_address (grown p o)) ps,
      total_sum-put plans p.plan_address (grown p o),
      total-grown p o,
    )

total_sum-add_transfers :
    (plans : Plans) (ts : List ConfirmedPlanTransfer)
    → total_sum (add_transfers plans ts) ≡ total_sum plans
unfolding add_transfers
total_sum-add_transfers plans [] = refl
total_sum-add_transfers plans (t ∷ ts) =
    let o = get plans t.plan_address in
    let counted = with_transfer t (or_else o (fresh_plan t.plan_address 0)) in
    omega (
      arith,
      total_sum-add_transfers (put plans t.plan_address counted) ts,
      total_sum-put plans t.plan_address counted,
      total-with_transfer t t.plan_address o,
    )

total_sum-close_plans : (plans : Plans) → total_sum (close_plans plans) ≡ total_sum plans
unfolding close_plans close_plan values
total_sum-close_plans [] = refl
total_sum-close_plans ((k, p) ∷ plans) = omega (arith, total_sum-close_plans plans)

collected_le-close_plans :
    (plans : Plans) → sum_of (λ p. p.collected) (values (close_plans plans)) ≤ total_sum plans
unfolding close_plans close_plan values
collected_le-close_plans [] = omega arith
collected_le-close_plans ((k, p) ∷ plans) = omega (arith, collected_le-close_plans plans)

abbrev for_plan : String → List ConfirmedPlanTransfer → List ConfirmedPlanTransfer
for_plan k ts = keep_if (λ t. str_eq t.plan_address k) ts

-- The plan's entry has counted these transfers.
abbrev Counted : Option PlanPaymentCollectionResult → List ConfirmedPlanTransfer → Type 0
Counted none ts = ts ≡ []
Counted (some p) ts = (p.transfers ≡ ts) × (p.collected ≡ length ts)

Counted-grown :
    (p : PlanCollectionTotal) (o : Option PlanPaymentCollectionResult)
    (ts : List ConfirmedPlanTransfer)
    → Counted o ts
    → Counted (some (grown p o)) ts
Counted-grown p none ts h = (sym h, rw h)
Counted-grown p (some q) ts h = h

Counted-with_transfer :
    (t : ConfirmedPlanTransfer) (k : String) (o : Option PlanPaymentCollectionResult)
    (ts : List ConfirmedPlanTransfer)
    → Counted o ts
    → Counted (some (with_transfer t (or_else o (fresh_plan k 0)))) (ts ++ t ∷ [])
unfolding with_transfer
Counted-with_transfer t k none ts h = rw h (refl, refl)
Counted-with_transfer t k (some q) ts (h, n) = (rw h, omega (arith, n, length-append ts (t ∷ [])))

Counted-add_totals :
    (plans : Plans) (ps : List PlanCollectionTotal) (k : String) (us : List ConfirmedPlanTransfer)
    → Counted (get plans k) us
    → Counted (get (add_totals plans ps) k) us
unfolding add_totals
Counted-add_totals plans [] k us h = h
Counted-add_totals plans (p ∷ ps) k us h =
    Counted-add_totals (put plans p.plan_address (grown p (get plans p.plan_address))) ps k us (
      rw get-put (elim (Bool-cases (str_eq p.plan_address k)) [
        | inl same ↦ rw same (
            Counted-grown p (get plans p.plan_address) us (rw ((eq_iff p.plan_address k).0 same) h))
        | inr other ↦ rw other h
      ]))

Counted-add_transfers :
    (plans : Plans) (ts : List ConfirmedPlanTransfer) (k : String) (us : List ConfirmedPlanTransfer)
    → Counted (get plans k) us
    → Counted (get (add_transfers plans ts) k) (us ++ for_plan k ts)
unfolding add_transfers
Counted-add_transfers plans [] k us h = rw append-nil h
Counted-add_transfers plans (t ∷ ts) k us h = elim (Bool-cases (str_eq t.plan_address k)) [
  | inl same ↦ rw same (
      rw (← append_assoc us (t ∷ []) (for_plan k ts)) (
        Counted-add_transfers
          (put plans t.plan_address
            (with_transfer t (or_else (get plans t.plan_address) (fresh_plan t.plan_address 0))))
          ts k (us ++ t ∷ [])
          (rw get-put (
            rw same (
              Counted-with_transfer t t.plan_address (get plans t.plan_address) us
                (rw ((eq_iff t.plan_address k).0 same) h))))))
  | inr other ↦ rw other (
      Counted-add_transfers
        (put plans t.plan_address
          (with_transfer t (or_else (get plans t.plan_address) (fresh_plan t.plan_address 0))))
        ts k us (rw get-put (rw other h)))
]

-- what the last loop makes of an entry
abbrev IsClosed : Option PlanPaymentCollectionResult → PlanPaymentCollectionResult → Type 0
IsClosed none p = ⊥
IsClosed (some q) p =
    (p.transfers ≡ q.transfers)
    × (p.total ≡ q.total)
    × (p.collected ≡ min q.collected q.total)
    × (p.partial ≡ ltb p.collected p.total)

close_plans-IsClosed :
    (plans : Plans) (k : String) (p : PlanPaymentCollectionResult)
    → get (close_plans plans) k ≡ some p
    → IsClosed (get plans k) p
unfolding close_plans close_plan get
close_plans-IsClosed [] k p h = absurd (cc h)
close_plans-IsClosed ((j, q) ∷ plans) k p h = elim (Bool-cases (str_eq j k)) [
  | inl same ↦ ground arith
  | inr other ↦ rw other (close_plans-IsClosed plans k p (rw other at h))
]

pub record IsPlanResult (k : String) (transfers : List ConfirmedPlanTransfer)
    (p : PlanPaymentCollectionResult) : Type 0 where
  pub own_transfers : p.transfers ≡ for_plan k transfers
  pub counted : p.collected ≡ min (length p.transfers) p.total
  pub flagged : p.partial ≡ ltb p.collected p.total

IsPlanResult-of_closed :
    (o : Option PlanPaymentCollectionResult) (k : String) (transfers : List ConfirmedPlanTransfer)
    (p : PlanPaymentCollectionResult)
    → IsClosed o p
    → Counted o (for_plan k transfers)
    → IsPlanResult k transfers p
IsPlanResult-of_closed none k transfers p c h = absurd c
IsPlanResult-of_closed (some q) k transfers p (same, total, collected, partial) (own, n) = record {
  own_transfers = same ∙ own;
  counted = rw (same, own, collected, n, total);
  flagged = partial;
}

-- Each plan in the result holds exactly the transfers confirmed for it, in order; its count is their
-- number, cut at the plan's total, and it is partial exactly when the count is below the total.
pub create_all_plan_payment_collection_result-IsPlanResult :
    (plan_totals : List PlanCollectionTotal) (transfers : List ConfirmedPlanTransfer)
    (signatures : List String) (partial : Bool) (k : String) (p : PlanPaymentCollectionResult)
    → get
        (create_all_plan_payment_collection_result plan_totals transfers signatures partial).plans
        k
      ≡ some p
    → IsPlanResult k transfers p
unfolding create_all_plan_payment_collection_result
create_all_plan_payment_collection_result-IsPlanResult plan_totals transfers signatures partial k p
      h =
    let listed = add_totals [] plan_totals in
    IsPlanResult-of_closed (get (add_transfers listed transfers) k) k transfers p
      (close_plans-IsClosed (add_transfers listed transfers) k p h)
      (Counted-add_transfers listed transfers k []
        (Counted-add_totals [] plan_totals k [] (unfold get in refl)))

-- The overall total is the sum of the totals of the plans in the result, which merge the entries of a
-- plan that is listed more than once; the overall count is at most that, and the result is partial
-- exactly when it was so before or the count is below the total.
pub create_all_plan_payment_collection_result_sums :
    (plan_totals : List PlanCollectionTotal) (transfers : List ConfirmedPlanTransfer)
    (signatures : List String) (partial : Bool)
    → let r = create_all_plan_payment_collection_result plan_totals transfers signatures partial in
      (sum_of (λ p. p.total) (values r.plans) ≡ r.total)
      × (r.collected ≤ r.total)
      × ((r.partial ≡ true) ↔ ((partial ≡ true) ⊎ (r.collected < r.total)))
unfolding create_all_plan_payment_collection_result
create_all_plan_payment_collection_result_sums plan_totals transfers signatures partial =
    let listed = add_totals [] plan_totals in
    let plans = add_transfers listed transfers in
    let start : total_sum [] ≡ 0 = (unfold values in refl) in
    let total : total_sum plans ≡ sum_of (λ p. p.total) plan_totals = omega (
      arith,
      start,
      total_sum-add_transfers listed transfers,
      total_sum-add_totals [] plan_totals,
    ) in
    (
      omega (arith, total_sum-close_plans plans, total),
      omega (arith, total, collected_le-close_plans plans),
      ground arith,
    )
