-- ===== src/Client/Queries/Laws.antt =====
-- What the counters of `activeDelegationSummary` hold.
use multi_delegator.Base.{
  ℕ, ◌+◌, String, ◌≡◌, refl, ◌∙◌, Bool, true, false, none, List, [], ◌∷◌, arith, length, count_if,
}
use multi_delegator.Base.Result.{ok}
use multi_delegator.Client.Accounts.{
  Delegation, fixed, recurring, subscription, AccountKit, fetch_delegations_by_delegator,
}
use multi_delegator.Client.Queries.{tally, DelegationSummary, summary_of, active_delegation_summary}

module _ {F R S : Type 0} where
  abbrev pub is_fixed : Delegation F R S → Bool
  is_fixed (fixed _ _) = true
  is_fixed _ = false

  abbrev pub is_recurring : Delegation F R S → Bool
  is_recurring (recurring _ _) = true
  is_recurring _ = false

  abbrev pub is_subscription : Delegation F R S → Bool
  is_subscription (subscription _ _) = true
  is_subscription _ = false

  tally-eq-count_if :
      (ds : List (Delegation F R S)) (f r s : ℕ)
      → tally ds f r s
        ≡ (f + count_if is_fixed ds, r + count_if is_recurring ds, s + count_if is_subscription ds)
  unfolding tally
  tally-eq-count_if [] f r s = ground arith
  tally-eq-count_if (fixed a d ∷ ds) f r s = tally-eq-count_if ds (f + 1) r s ∙ ground arith
  tally-eq-count_if (recurring a d ∷ ds) f r s = tally-eq-count_if ds f (r + 1) s ∙ ground arith
  tally-eq-count_if (subscription a d ∷ ds) f r s = tally-eq-count_if ds f r (s + 1) ∙ ground arith

  tally-eq-count_if_from_zero :
      (ds : List (Delegation F R S))
      → tally ds 0 0 0
        ≡ (count_if is_fixed ds, count_if is_recurring ds, count_if is_subscription ds)
  tally-eq-count_if_from_zero ds = tally-eq-count_if ds 0 0 0 ∙ ground arith

  kinds-sum :
      (ds : List (Delegation F R S))
      → count_if is_fixed ds + count_if is_recurring ds + count_if is_subscription ds ≡ length ds
  kinds-sum [] = refl
  kinds-sum (fixed a d ∷ ds) = let h = kinds-sum ds in omega (arith, h)
  kinds-sum (recurring a d ∷ ds) = let h = kinds-sum ds in omega (arith, h)
  kinds-sum (subscription a d ∷ ds) = let h = kinds-sum ds in omega (arith, h)

  pub record IsSummary (ds : List (Delegation F R S)) (r : DelegationSummary) : Type 0 where
    pub fixed : r.fixed ≡ count_if is_fixed ds
    pub recurring : r.recurring ≡ count_if is_recurring ds
    pub subscriptions : r.subscriptions ≡ count_if is_subscription ds
    pub total : r.total ≡ length ds
    pub adds_up : r.fixed + r.recurring + r.subscriptions ≡ r.total

  summary_of-IsSummary : (ds : List (Delegation F R S)) → IsSummary ds (summary_of ds)
  unfolding summary_of
  summary_of-IsSummary ds = rw (tally-eq-count_if_from_zero ds) (record {
    fixed = refl;
    recurring = refl;
    subscriptions = refl;
    total = refl;
    adds_up = kinds-sum ds;
  })

-- Where the delegations of a wallet are fetched, the summary counts each kind among all of them,
-- those that have expired or were cancelled included, its total is their number, and the three counts
-- add up to it.
pub active_delegation_summary-IsSummary :
    {F R S P : Type 0} (kit : AccountKit F R S P) (wallet : String) (ds : List (Delegation F R S))
    → fetch_delegations_by_delegator kit wallet none ≡ ok ds
    → (r : DelegationSummary) × (active_delegation_summary kit wallet ≡ ok r) × IsSummary ds r
unfolding active_delegation_summary
active_delegation_summary-IsSummary kit wallet ds h = (summary_of ds, rw h, summary_of-IsSummary ds)
