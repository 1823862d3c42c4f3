-- ===== src/Filters.antt =====
-- webapp/src/lib/delegation-approval-state.ts, delegation-filters.ts and plan-subscriber-authority.ts:
-- what the pages on delegations and plans show.
pub mod Laws
use multi_delegator.Base.{
  ℕ, String, Bool, true, false, not, ◌&&◌, ◌||◌, Option, none, some, List, str_eq, ltb, keep_if,
}

pub record DelegationApprovalStateInput : Type 0 where
  pub is_initialized : Bool
  pub is_approved : Bool
  pub outgoing_delegation_count : ℕ

pub record DelegationApprovalState : Type 0 where
  pub can_create_delegations : Bool
  pub can_close_subscription_authority : Bool
  pub should_show_outgoing_delegations : Bool
  pub should_show_approval_prompt_as_content : Bool
  pub should_show_approval_recovery_banner : Bool

unfoldable pub get_delegation_approval_state :
    DelegationApprovalStateInput → DelegationApprovalState
get_delegation_approval_state input =
    let has_outgoing_delegations = ltb 0 input.outgoing_delegation_count in
    let has_cleanup_surface = input.is_initialized || has_outgoing_delegations in
    record {
      can_create_delegations = input.is_approved;
      can_close_subscription_authority = input.is_initialized;
      should_show_outgoing_delegations = input.is_approved || has_cleanup_surface;
      should_show_approval_prompt_as_content = not input.is_approved && not has_cleanup_surface;
      should_show_approval_recovery_banner = not input.is_approved && has_cleanup_surface;
    }

pub data DelegationType : Type 0 where
  fixed_type recurring_type : DelegationType

abbrev pub is_fixed : DelegationType → Bool
is_fixed fixed_type = true
is_fixed recurring_type = false

abbrev pub is_recurring : DelegationType → Bool
is_recurring fixed_type = false
is_recurring recurring_type = true

pub record GroupedDelegationItems (T : Type 0) : Type 0 where
  pub all_items : List T
  pub fixed_items : List T
  pub recurring_items : List T

-- items of any type with a mint and a type
module _ {T : Type 0} (mint_of : T → String) (type_of : T → DelegationType) where
  unfoldable pub filter_delegations_by_mint : List T → String → List T
  filter_delegations_by_mint delegations token_mint =
      keep_if (λ d. str_eq (mint_of d) token_mint) delegations

  unfoldable pub group_delegations : List T → GroupedDelegationItems T
  group_delegations delegations = record {
    all_items = delegations;
    fixed_items = keep_if (λ d. is_fixed (type_of d)) delegations;
    recurring_items = keep_if (λ d. is_recurring (type_of d)) delegations;
  }

  unfoldable pub group_delegations_by_mint : List T → String → GroupedDelegationItems T
  unfolding filter_delegations_by_mint group_delegations
  group_delegations_by_mint delegations token_mint =
      group_delegations (filter_delegations_by_mint delegations token_mint)

pub data PlanSubscriberAuthorityStatus : Type 0 where
  live_authority missing_authority rotated_authority : PlanSubscriberAuthorityStatus

abbrev pub is_live : Option PlanSubscriberAuthorityStatus → Bool
is_live (some live_authority) = true
is_live _ = false

abbrev pub is_stale : Option PlanSubscriberAuthorityStatus → Bool
is_stale none = false
is_stale (some live_authority) = false
is_stale (some missing_authority) = true
is_stale (some rotated_authority) = true

-- subscribers of any type, whose status may not be there
module _ {S : Type 0} (status_of : S → Option PlanSubscriberAuthorityStatus) where
  unfoldable pub get_live_plan_subscribers : List S → List S
  get_live_plan_subscribers subscribers = keep_if (λ s. is_live (status_of s)) subscribers

  unfoldable pub get_authority_stale_plan_subscribers : List S → List S
  get_authority_stale_plan_subscribers subscribers =
      keep_if (λ s. is_stale (status_of s)) subscribers
