-- ===== src/Collect/Eligibility/Laws.antt =====
-- What `computeEligibleSubscribers` selects, and how it agrees with webapp/src/lib/utils.ts.
use multi_delegator.Base.{
  ◌≡◌, refl, ap, ◌↔◌, ◌⊎◌, inl, inr, true, false, ◌||◌, some, List, [], ◌∷◌, arith, Bool-cases,
  Option-cases,
}
use multi_delegator.Base.Int.{
  ℤ, pos, ◌+ℤ◌, ◌≤ℤ◌, ◌<ℤ◌, leb_ℤ, eqb_ℤ, +ℤ_parts, -ℤ_parts, eq_of_parts,
}
use multi_delegator.Js.Number.{number, plus, IsSafe, number_of_IsSafe}
use multi_delegator.Terms.{is_expired, is_still_collectible_subscription, time_drift_allowed_secs}
use multi_delegator.Collect.Types.{
  EligibleSubscriber, PlanTermsFingerprint, PlanSubscriberForCollection,
}
use multi_delegator.Collect.Eligibility.{
  has_matching_plan_terms, get_stale_plan_subscribers, collect_amount, is_past_expiry,
  eligible_entry, eligible_loop, compute_eligible_subscribers,
}
use mathlib.Core.List.{Memᴰ}
use mathlib.Core.List.Memᴰ

-- The terms are those of the plan, the subscription has not expired, and something is owed.
pub record IsEligible (plan_terms : PlanTermsFingerprint) (current_ts : ℤ)
    (sub : PlanSubscriberForCollection) : Type 0 where
  pub alive : (sub.expires_at_ts ≡ pos 0) ⊎ (current_ts <ℤ number sub.expires_at_ts)
  pub same_terms : sub.terms ≡ plan_terms
  pub owed : pos 0 <ℤ collect_amount sub plan_terms current_ts

abbrev pub entry_of : PlanTermsFingerprint → ℤ → PlanSubscriberForCollection → EligibleSubscriber
entry_of plan_terms current_ts sub = record {
  subscription_address = sub.subscription_address;
  delegator = sub.delegator;
  collect_amount = collect_amount sub plan_terms current_ts;
}

eqb_ℤ→eq : (a b : ℤ) → eqb_ℤ a b ≡ true → a ≡ b
eqb_ℤ→eq a b h = eq_of_parts a b (ground arith)

eqb_ℤ_refl : (a : ℤ) → eqb_ℤ a a ≡ true
eqb_ℤ_refl a = ground arith

has_matching_plan_terms_sound :
    (sub : PlanSubscriberForCollection) (plan_terms : PlanTermsFingerprint)
    → has_matching_plan_terms sub plan_terms ≡ true
    → sub.terms ≡ plan_terms
unfolding has_matching_plan_terms
has_matching_plan_terms_sound sub plan_terms h = ground (
  arith,
  eqb_ℤ→eq sub.terms.amount plan_terms.amount,
  eqb_ℤ→eq sub.terms.period_hours plan_terms.period_hours,
  eqb_ℤ→eq sub.terms.created_at plan_terms.created_at,
)

has_matching_plan_terms_self :
    (sub : PlanSubscriberForCollection) (plan_terms : PlanTermsFingerprint)
    → sub.terms ≡ plan_terms
    → has_matching_plan_terms sub plan_terms ≡ true
unfolding has_matching_plan_terms
has_matching_plan_terms_self sub plan_terms e = rw (← e) (
    simp (
      eqb_ℤ_refl sub.terms.amount,
      eqb_ℤ_refl sub.terms.period_hours,
      eqb_ℤ_refl sub.terms.created_at,
    ))

module _ (plan_terms : PlanTermsFingerprint) (current_ts : ℤ) where
  eligible_entry_sound :
      (sub : PlanSubscriberForCollection) {e : EligibleSubscriber}
      → eligible_entry plan_terms current_ts sub ≡ some e
      → IsEligible plan_terms current_ts sub × (entry_of plan_terms current_ts sub ≡ e)
  unfolding eligible_entry is_past_expiry
  eligible_entry_sound sub {e} h = (
    record {
      alive = ground (arith, eqb_ℤ→eq sub.expires_at_ts (pos 0));
      same_terms = has_matching_plan_terms_sound sub plan_terms (ground arith);
      owed = ground arith;
    },
    ground arith,
  )

  eligible_entry_complete :
      (sub : PlanSubscriberForCollection)
      → IsEligible plan_terms current_ts sub
      → eligible_entry plan_terms current_ts sub ≡ some (entry_of plan_terms current_ts sub)
  unfolding eligible_entry is_past_expiry
  eligible_entry_complete sub h =
      ground (arith, has_matching_plan_terms_self sub plan_terms h.same_terms, h.alive, h.owed)

  eligible_loop_sound :
      (subs : List PlanSubscriberForCollection) {e : EligibleSubscriber}
      → Memᴰ e (eligible_loop plan_terms current_ts subs)
      → (sub : PlanSubscriberForCollection) × Memᴰ sub subs
        × IsEligible plan_terms current_ts sub
        × (entry_of plan_terms current_ts sub ≡ e)
  unfolding eligible_loop
  eligible_loop_sound [] m = absurd (Memᴰ.not-nil m)
  eligible_loop_sound (sub ∷ subs) m =
      elim (Option-cases (eligible_entry plan_terms current_ts sub)) [
        | inl skipped ↦
            let (found, listed, fit, same) = eligible_loop_sound subs (rw skipped at m) in
            (found, Memᴰ.tail listed, fit, same)
        | inr (entry, pushed) ↦ elim (Memᴰ.cases_cons (rw pushed at m)) [
          | inl here ↦
              let (fit, same) = eligible_entry_sound sub pushed in (sub, Memᴰ.head refl, fit, cc)
          | inr later ↦
              let (found, listed, fit, same) = eligible_loop_sound subs later in
              (found, Memᴰ.tail listed, fit, same)
        ]
      ]

  eligible_loop_complete :
      (subs : List PlanSubscriberForCollection) {sub : PlanSubscriberForCollection}
      → Memᴰ sub subs
      → IsEligible plan_terms current_ts sub
      → Memᴰ (entry_of plan_terms current_ts sub) (eligible_loop plan_terms current_ts subs)
  unfolding eligible_loop
  eligible_loop_complete [] m fit = absurd (Memᴰ.not-nil m)
  eligible_loop_complete (s ∷ subs) {sub} m fit = elim (Memᴰ.cases_cons m) [
    | inl here ↦ rw (eligible_entry_complete s (rw here at fit)) (Memᴰ.head (rw here))
    | inr later ↦ elim (Option-cases (eligible_entry plan_terms current_ts s)) [
      | inl skipped ↦ rw skipped (eligible_loop_complete subs later fit)
      | inr (entry, pushed) ↦ rw pushed (Memᴰ.tail (eligible_loop_complete subs later fit))
    ]
  ]

  eligible_loop-stale :
      (subs : List PlanSubscriberForCollection)
      → eligible_loop plan_terms current_ts (get_stale_plan_subscribers subs plan_terms) ≡ []
  unfolding eligible_loop get_stale_plan_subscribers eligible_entry
  eligible_loop-stale [] = refl
  eligible_loop-stale (s ∷ subs) = ground (arith, eligible_loop-stale subs)

-- For a plan with a positive amount and period, an entry is selected exactly when it is the entry
-- of a listed subscriber that has not expired, holds the plan's terms and owes a positive amount.
pub compute_eligible_subscribers_exact :
    (subs : List PlanSubscriberForCollection) (plan_terms : PlanTermsFingerprint) (current_ts : ℤ)
    (e : EligibleSubscriber)
    → pos 0 <ℤ plan_terms.amount
    → pos 0 <ℤ plan_terms.period_hours
    → Memᴰ e (compute_eligible_subscribers subs plan_terms current_ts) ↔ (
        (sub : PlanSubscriberForCollection) × Memᴰ sub subs
        × IsEligible plan_terms current_ts sub
        × (entry_of plan_terms current_ts sub ≡ e))
unfolding compute_eligible_subscribers
compute_eligible_subscribers_exact subs plan_terms current_ts e amount period =
    let open_plan : (leb_ℤ plan_terms.amount (pos 0) || leb_ℤ plan_terms.period_hours (pos 0))
        ≡ false =
      ground arith in
    rw open_plan (
      eligible_loop_sound plan_terms current_ts subs,
      λ found. rw (← found.3) (eligible_loop_complete plan_terms current_ts subs found.1 found.2),
    )

-- Whatever the plan, no subscriber with stale terms is selected.
pub compute_eligible_subscribers-stale :
    (subs : List PlanSubscriberForCollection) (plan_terms : PlanTermsFingerprint) (current_ts : ℤ)
    → compute_eligible_subscribers
        (get_stale_plan_subscribers subs plan_terms)
        plan_terms
        current_ts
      ≡ []
unfolding compute_eligible_subscribers
compute_eligible_subscribers-stale subs plan_terms current_ts =
    ground (arith, eligible_loop-stale plan_terms current_ts subs)

collect_amount-at_most :
    (plan_terms : PlanTermsFingerprint) (current_ts : ℤ) (sub : PlanSubscriberForCollection)
    → pos 0 ≤ℤ sub.amount_pulled_in_period
    → collect_amount sub plan_terms current_ts ≤ℤ plan_terms.amount
unfolding collect_amount
collect_amount-at_most plan_terms current_ts sub h =
    ground (arith, -ℤ_parts plan_terms.amount sub.amount_pulled_in_period)

-- whatever the plan, an entry that is selected is that of a listed eligible subscriber
compute_eligible_subscribers_sound :
    (subs : List PlanSubscriberForCollection) (plan_terms : PlanTermsFingerprint) (current_ts : ℤ)
    (e : EligibleSubscriber)
    → Memᴰ e (compute_eligible_subscribers subs plan_terms current_ts)
    → (sub : PlanSubscriberForCollection) × Memᴰ sub subs
      × IsEligible plan_terms current_ts sub
      × (entry_of plan_terms current_ts sub ≡ e)
unfolding compute_eligible_subscribers
compute_eligible_subscribers_sound subs plan_terms current_ts e selected =
    elim (Bool-cases (leb_ℤ plan_terms.amount (pos 0) || leb_ℤ plan_terms.period_hours (pos 0))) [
      | inl closed ↦ absurd (Memᴰ.not-nil (rw closed at selected))
      | inr open_plan ↦ eligible_loop_sound plan_terms current_ts subs (rw open_plan at selected)
    ]

-- Whatever the plan: where every listed subscriber was pulled a non-negative amount in the period,
-- what each selected entry is charged is positive and at most the plan's amount.
pub compute_eligible_subscribers_bounds :
    (subs : List PlanSubscriberForCollection) (plan_terms : PlanTermsFingerprint) (current_ts : ℤ)
    (e : EligibleSubscriber)
    → ((sub : PlanSubscriberForCollection) → Memᴰ sub subs → pos 0 ≤ℤ sub.amount_pulled_in_period)
    → Memᴰ e (compute_eligible_subscribers subs plan_terms current_ts)
    → (pos 0 <ℤ e.collect_amount) × (e.collect_amount ≤ℤ plan_terms.amount)
compute_eligible_subscribers_bounds subs plan_terms current_ts e pulled selected =
    let (sub, listed, fit, same) =
      compute_eligible_subscribers_sound subs plan_terms current_ts e selected in
    rw (← same) (fit.owed, collect_amount-at_most plan_terms current_ts sub (pulled sub listed))

-- An eligible subscriber, whose expiry and its drift margin are safe integers, is shown as still
-- collectible at the same time.
is_still_collectible_of_IsEligible :
    (plan_terms : PlanTermsFingerprint) (current_ts clock : ℤ) (sub : PlanSubscriberForCollection)
    → IsEligible plan_terms current_ts sub
    → IsSafe sub.expires_at_ts
    → IsSafe (sub.expires_at_ts +ℤ time_drift_allowed_secs)
    → is_still_collectible_subscription sub.expires_at_ts (some current_ts) clock ≡ true
unfolding is_still_collectible_subscription is_expired plus
is_still_collectible_of_IsEligible plan_terms current_ts clock sub fit h k = ground (
  arith,
  fit.alive,
  number_of_IsSafe sub.expires_at_ts h,
  number_of_IsSafe (sub.expires_at_ts +ℤ time_drift_allowed_secs) k,
  +ℤ_parts sub.expires_at_ts time_drift_allowed_secs,
)

-- Where the expiries and their drift margins are safe integers, every entry that the collector selects
-- is that of a listed subscription which the app still counts as collectible at the same block time,
-- whatever the clock of the browser.
pub compute_eligible_subscribers_still_collectible :
    (subs : List PlanSubscriberForCollection) (plan_terms : PlanTermsFingerprint)
    (current_ts clock : ℤ) (e : EligibleSubscriber)
    → ((sub : PlanSubscriberForCollection)
        → Memᴰ sub subs
        → IsSafe sub.expires_at_ts × IsSafe (sub.expires_at_ts +ℤ time_drift_allowed_secs))
    → Memᴰ e (compute_eligible_subscribers subs plan_terms current_ts)
    → (sub : PlanSubscriberForCollection) × Memᴰ sub subs
      × (sub.subscription_address ≡ e.subscription_address)
      × (is_still_collectible_subscription sub.expires_at_ts (some current_ts) clock ≡ true)
compute_eligible_subscribers_still_collectible subs plan_terms current_ts clock e safe selected =
    let (sub, listed, fit, same) =
      compute_eligible_subscribers_sound subs plan_terms current_ts e selected in
    let (expiry, margin) = safe sub listed in
    (
      sub,
      listed,
      ap (λ entry. entry.subscription_address) same,
      is_still_collectible_of_IsEligible plan_terms current_ts clock sub fit expiry margin,
    )
