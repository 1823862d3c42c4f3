-- ===== src/Client/Inputs.antt =====
-- The overlay inputs of clients/typescript/src/plugin.ts. `S` is the type of the signer fields that
-- the plugin fills in: `Signer` for an overlay, `Option Signer` (`MakeOptional`) for the plugin.
-- `program_address` is the field of `WithProgramAddress`.
use multi_delegator.Base.{String, Option, List}
use multi_delegator.Client.Types.{Quantity, Signer, AccountMeta, PlanStatus}

pub record InitSubscriptionAuthorityInput (S : Type 0) : Type 0 where
  pub program_address : Option String
  pub owner : S
  pub payer : Option Signer
  pub token_mint : String
  pub token_program : String
  pub user_ata : String

pub record CloseSubscriptionAuthorityInput (S : Type 0) : Type 0 where
  pub program_address : Option String
  pub receiver : Option String
  pub token_mint : String
  pub user : S

pub record RevokeSubscriptionAuthorityInput (S : Type 0) : Type 0 where
  pub program_address : Option String
  pub receiver : Option String
  pub token_mint : String
  pub token_program : String
  pub user : S

pub record CreateFixedDelegationInput (S : Type 0) : Type 0 where
  pub program_address : Option String
  pub amount : Quantity
  pub delegatee : String
  pub delegator : S
  pub expected_subscription_authority_init_id : Option Quantity
  pub expiry_ts : Quantity
  pub nonce : Quantity
  pub payer : Option Signer
  pub token_mint : String

pub record CreateRecurringDelegationInput (S : Type 0) : Type 0 where
  pub program_address : Option String
  pub amount_per_period : Quantity
  pub delegatee : String
  pub delegator : S
  pub expected_subscription_authority_init_id : Option Quantity
  pub expiry_ts : Quantity
  pub nonce : Quantity
  pub payer : Option Signer
  pub period_length_s : Quantity
  pub start_ts : Quantity
  pub token_mint : String

pub record RevokeDelegationInput (S : Type 0) : Type 0 where
  pub program_address : Option String
  pub authority : S
  pub delegation_account : String
  pub receiver : Option String

pub record RevokeSubscriptionInput (S : Type 0) : Type 0 where
  pub program_address : Option String
  pub authority : S
  pub plan_pda : String
  pub receiver : Option String
  pub subscription_pda : String

pub record TransferDelegationInput (S : Type 0) : Type 0 where
  pub program_address : Option String
  pub amount : Quantity
  pub delegatee : S
  pub delegation_pda : String
  pub delegator : String
  pub delegator_ata : String
  pub receiver_ata : String
  pub token_mint : String
  pub token_program : String
  pub transfer_hook_accounts : Option (List AccountMeta)

pub record TransferSubscriptionInput (S : Type 0) : Type 0 where
  pub program_address : Option String
  pub amount : Quantity
  pub caller : S
  pub delegator : String
  pub plan_pda : String
  pub receiver_ata : String
  pub subscription_pda : String
  pub token_mint : String
  pub token_program : String
  pub transfer_hook_accounts : Option (List AccountMeta)

pub record CreatePlanInput (S : Type 0) : Type 0 where
  pub program_address : Option String
  pub amount : Quantity
  pub destinations : List String
  pub end_ts : Quantity
  pub metadata_uri : String
  pub mint : String
  pub owner : S
  pub payer : Option Signer
  pub period_hours : Quantity
  pub plan_id : Quantity
  pub pullers : List String
  pub token_program : Option String

pub record UpdatePlanInput (S : Type 0) : Type 0 where
  pub program_address : Option String
  pub end_ts : Quantity
  pub expected_created_at : Option Quantity
  pub expected_end_ts : Option Quantity
  pub expected_metadata_uri : Option String
  pub expected_pullers : Option (List String)
  pub metadata_uri : String
  pub owner : S
  pub plan_pda : String
  pub pullers : List String
  pub status : PlanStatus

pub record DeletePlanInput (S : Type 0) : Type 0 where
  pub program_address : Option String
  pub owner : S
  pub plan_pda : String

pub record SubscribeInput (S : Type 0) : Type 0 where
  pub program_address : Option String
  pub expected_amount : Option Quantity
  pub expected_created_at : Option Quantity
  pub expected_period_hours : Option Quantity
  pub expected_subscription_authority_init_id : Option Quantity
  pub merchant : String
  pub payer : Option Signer
  pub plan_id : Quantity
  pub subscriber : S
  pub token_mint : String

pub record CancelSubscriptionInput (S : Type 0) : Type 0 where
  pub program_address : Option String
  pub plan_pda : String
  pub subscriber : S
  pub subscription_pda : Option String

pub record CancelSubscriptionNowInput (S : Type 0) : Type 0 where
  pub program_address : Option String
  pub expected_current_period_start_ts : Quantity
  pub merchant : S
  pub plan_pda : String
  pub subscriber : S
  pub subscription_pda : Option String

pub record ResumeSubscriptionInput (S : Type 0) : Type 0 where
  pub program_address : Option String
  pub expected_expires_at_ts : Quantity
  pub plan_pda : String
  pub subscriber : S
  pub subscription_pda : Option String
  pub token_mint : String
