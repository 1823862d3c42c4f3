-- ===== src/Filters/Laws.antt =====
-- webapp/src/lib/delegation-filters.ts and plan-subscriber-authority.ts: nothing is shown twice, in the
-- wrong list or not at all.
use multi_delegator.Base.{
  String, ◌≡◌, refl, ◌⊎◌, inl, inr, Bool, true, not, Option, none, some, List, [], ◌∷◌, str_eq,
  Bool-cases, is_some, keep_if, All,
}
use multi_delegator.Collect.Send.Settling.{Merge, done, left, right}
use multi_delegator.Filters.{
  is_live, is_stale, is_fixed, is_recurring, DelegationType, filter_delegations_by_mint,
  group_delegations, group_delegations_by_mint, PlanSubscriberAuthorityStatus,
  get_live_plan_subscribers, get_authority_stale_plan_subscribers, fixed_type, recurring_type,
  live_authority, missing_authority, rotated_authority,
}

keep_if-All :
    {A : Type 0} {P : A → Type 0} (p : A → Bool) (xs : List A)
    → ((x : A) → p x ≡ true → P x)
    → All P (keep_if p xs)
keep_if-All p [] h = tt
keep_if-All p (x ∷ xs) h = elim (Bool-cases (p x)) [
  | inl e ↦ rw e (h x e, keep_if-All p xs h)
  | inr e ↦ rw e (keep_if-All p xs h)
]

keep_if-Merge :
    {A : Type 0} (p q : A → Bool) (xs : List A)
    → ((x : A) → q x ≡ not (p x))
    → Merge (keep_if p xs) (keep_if q xs) xs
keep_if-Merge p q [] h = done
keep_if-Merge p q (x ∷ xs) h = elim (Bool-cases (p x)) [
  | inl e ↦ rw (h x, e) (left (keep_if-Merge p q xs h))
  | inr e ↦ rw (h x, e) (right (keep_if-Merge p q xs h))
]

is_recurring-not : (t : DelegationType) → is_recurring t ≡ not (is_fixed t)
is_recurring-not fixed_type = refl
is_recurring-not recurring_type = refl

is_fixed-eq : (t : DelegationType) → is_fixed t ≡ true → t ≡ fixed_type
is_fixed-eq fixed_type h = refl
is_fixed-eq recurring_type h = cc

is_recurring-eq : (t : DelegationType) → is_recurring t ≡ true → t ≡ recurring_type
is_recurring-eq fixed_type h = cc
is_recurring-eq recurring_type h = refl

module _ {T : Type 0} (mint_of : T → String) (type_of : T → DelegationType) where
  -- The groups of a mint: all the delegations of that mint in the order listed; each of them, and no
  -- other, stands in one of the two lists, in that order; and the one list holds only fixed
  -- delegations, the other only recurring ones.
  pub group_delegations_by_mint_ok :
      (delegations : List T) (token_mint : String)
      → let groups = group_delegations_by_mint mint_of type_of delegations token_mint in
        (groups.all_items ≡ keep_if (λ d. str_eq (mint_of d) token_mint) delegations)
        × All (λ d. type_of d ≡ fixed_type) groups.fixed_items
        × All (λ d. type_of d ≡ recurring_type) groups.recurring_items
        × Merge groups.fixed_items groups.recurring_items groups.all_items
  unfolding group_delegations_by_mint group_delegations filter_delegations_by_mint
  group_delegations_by_mint_ok delegations token_mint = (
    refl,
    keep_if-All _ _ (λ d. is_fixed-eq (type_of d)),
    keep_if-All _ _ (λ d. is_recurring-eq (type_of d)),
    keep_if-Merge _ _ _ (λ d. is_recurring-not (type_of d)),
  )

is_stale-live :
    (o : Option PlanSubscriberAuthorityStatus) → is_some o ≡ true → is_stale o ≡ not (is_live o)
is_stale-live none h = cc
is_stale-live (some live_authority) h = refl
is_stale-live (some missing_authority) h = refl
is_stale-live (some rotated_authority) h = refl

is_live-eq : (o : Option PlanSubscriberAuthorityStatus) → is_live o ≡ true → o ≡ some live_authority
is_live-eq none h = cc
is_live-eq (some live_authority) h = refl
is_live-eq (some missing_authority) h = cc
is_live-eq (some rotated_authority) h = cc

-- the authority was found to be missing or another one
abbrev pub IsGone : Option PlanSubscriberAuthorityStatus → Type 0
IsGone o = (o ≡ some missing_authority) ⊎ (o ≡ some rotated_authority)

is_stale-IsGone : (o : Option PlanSubscriberAuthorityStatus) → is_stale o ≡ true → IsGone o
is_stale-IsGone none h = cc
is_stale-IsGone (some live_authority) h = cc
is_stale-IsGone (some missing_authority) h = inl refl
is_stale-IsGone (some rotated_authority) h = inr refl

module _ {S : Type 0} (status_of : S → Option PlanSubscriberAuthorityStatus) where
  -- Where the authority of every subscriber was looked up, each subscriber stands in one of the two
  -- lists, both in order: those in the live list have a live authority, those in the stale list a
  -- missing or a rotated one.
  pub live_stale_partition :
      (subscribers : List S)
      → ((s : S) → is_some (status_of s) ≡ true)
      → let live = get_live_plan_subscribers status_of subscribers in
        let stale = get_authority_stale_plan_subscribers status_of subscribers in
        All (λ s. status_of s ≡ some live_authority) live
        × All (λ s. IsGone (status_of s)) stale
        × Merge live stale subscribers
  unfolding get_live_plan_subscribers get_authority_stale_plan_subscribers
  live_stale_partition subscribers known = (
    keep_if-All _ subscribers (λ s. is_live-eq (status_of s)),
    keep_if-All _ subscribers (λ s. is_stale-IsGone (status_of s)),
    keep_if-Merge _ _ subscribers (λ s. is_stale-live (status_of s) (known s)),
  )
