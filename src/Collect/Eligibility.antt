-- ===== src/Collect/Eligibility.antt =====
-- webapp/src/lib/collect-utils.ts, `hasMatchingPlanTerms`, `getStalePlanSubscribers` and
-- `computeEligibleSubscribers`.
pub mod Laws
use multi_delegator.Base.{
  Bool, not, ◌&&◌, ◌||◌, Option, none, some, List, [], ◌∷◌, if◌then◌else◌, keep_if,
}
use multi_delegator.Base.Int.{ℤ, pos, ◌-ℤ◌, scale, leb_ℤ, eqb_ℤ}
use multi_delegator.Js.Number.{number, plus}
use multi_delegator.Collect.Types.{
  EligibleSubscriber, PlanTermsFingerprint, PlanSubscriberForCollection,
}

unfoldable pub has_matching_plan_terms : PlanSubscriberForCollection → PlanTermsFingerprint → Bool
has_matching_plan_terms sub plan_terms =
    eqb_ℤ sub.terms.amount plan_terms.amount
    && eqb_ℤ sub.terms.period_hours plan_terms.period_hours
    && eqb_ℤ sub.terms.created_at plan_terms.created_at

unfoldable pub get_stale_plan_subscribers :
    List PlanSubscriberForCollection → PlanTermsFingerprint → List PlanSubscriberForCollection
get_stale_plan_subscribers subscribers plan_terms =
    keep_if (λ sub. not (has_matching_plan_terms sub plan_terms)) subscribers

-- `Number(sub.currentPeriodStartTs) + Number(planTerms.periodHours) * 3600`
unfoldable pub period_end : PlanSubscriberForCollection → PlanTermsFingerprint → ℤ
period_end sub plan_terms =
    plus (number sub.current_period_start_ts) (number (scale (number plan_terms.period_hours) 3600))

unfoldable pub collect_amount : PlanSubscriberForCollection → PlanTermsFingerprint → ℤ → ℤ
collect_amount sub plan_terms current_ts =
    if leb_ℤ (period_end sub plan_terms) current_ts
    then plan_terms.amount
    else plan_terms.amount -ℤ sub.amount_pulled_in_period

unfoldable pub is_past_expiry : PlanSubscriberForCollection → ℤ → Bool
is_past_expiry sub current_ts =
    not (eqb_ℤ sub.expires_at_ts (pos 0)) && leb_ℤ (number sub.expires_at_ts) current_ts

-- one round of the loop: what it pushes, or `none` where it continues
unfoldable pub eligible_entry :
    PlanTermsFingerprint → ℤ → PlanSubscriberForCollection → Option EligibleSubscriber
eligible_entry plan_terms current_ts sub =
    if is_past_expiry sub current_ts
    then none
    else if not (has_matching_plan_terms sub plan_terms)
    then none
    else if leb_ℤ (collect_amount sub plan_terms current_ts) (pos 0)
    then none
    else some (record {
      subscription_address = sub.subscription_address;
      delegator = sub.delegator;
      collect_amount = collect_amount sub plan_terms current_ts;
    })

abbrev push_entry {ℓ} : {A : Type ℓ} → Option A → List A → List A
push_entry none rest = rest
push_entry (some e) rest = e ∷ rest

eligible_loop :
    PlanTermsFingerprint → ℤ → List PlanSubscriberForCollection → List EligibleSubscriber
eligible_loop plan_terms current_ts [] = []
eligible_loop plan_terms current_ts (sub ∷ subs) =
    push_entry (eligible_entry plan_terms current_ts sub) (eligible_loop plan_terms current_ts subs)

unfoldable pub compute_eligible_subscribers :
    List PlanSubscriberForCollection → PlanTermsFingerprint → ℤ → List EligibleSubscriber
unfolding eligible_loop eligible_entry
compute_eligible_subscribers subscribers plan_terms current_ts =
    if leb_ℤ plan_terms.amount (pos 0) || leb_ℤ plan_terms.period_hours (pos 0)
    then []
    else eligible_loop plan_terms current_ts subscribers
