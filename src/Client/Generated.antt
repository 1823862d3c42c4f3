-- ===== src/Client/Generated.antt =====
-- What plugin.ts calls outside the repository: the builders and PDA finders of the generated client,
-- `findAssociatedTokenPda`, `TextEncoder` and the RPC. A rejected promise is `throw`.
use multi_delegator.Base.{ℕ, String, Option, List}
use multi_delegator.Base.Result.{Result}
use multi_delegator.Client.Types.{Quantity, Signer, Instruction, PlanStatus}

-- the event accounts of an instruction: `{ eventAuthority, selfProgram }`
pub record EventAccounts : Type 0 where
  pub event_authority : String
  pub self_program : String

pub record PlanTerms : Type 0 where
  pub amount : Quantity
  pub created_at : Quantity
  pub period_hours : Quantity

-- `planData` of an instruction, and `data.data` of a plan account
pub record PlanData : Type 0 where
  pub destinations : List String
  pub end_ts : Quantity
  pub metadata_uri : String
  pub mint : String
  pub plan_id : Quantity
  pub pullers : List String
  pub terms : PlanTerms

pub record UpdatePlanData : Type 0 where
  pub end_ts : Quantity
  pub expected_created_at : Quantity
  pub expected_end_ts : Quantity
  pub expected_metadata_uri : String
  pub expected_pullers : List String
  pub metadata_uri : String
  pub pullers : List String
  pub status : PlanStatus

pub record SubscribeData : Type 0 where
  pub expected_amount : Quantity
  pub expected_created_at : Quantity
  pub expected_mint : String
  pub expected_period_hours : Quantity
  pub expected_subscription_authority_init_id : Quantity
  pub plan_bump : ℕ
  pub plan_id : Quantity

pub record FixedDelegationData : Type 0 where
  pub amount : Quantity
  pub expected_subscription_authority_init_id : Quantity
  pub expiry_ts : Quantity
  pub nonce : Quantity

pub record RecurringDelegationData : Type 0 where
  pub amount_per_period : Quantity
  pub expected_subscription_authority_init_id : Quantity
  pub expiry_ts : Quantity
  pub nonce : Quantity
  pub period_length_s : Quantity
  pub start_ts : Quantity

pub record TransferData : Type 0 where
  pub amount : Quantity
  pub delegator : String
  pub mint : String

pub data TransferKind : Type 0 where
  fixed_transfer recurring_transfer : TransferKind

-- A call of a generated instruction builder, by its argument object.
pub data BuilderCall : Type 0 where
  init_subscription_authority_call :
      (owner : Signer) (token_mint token_program user_ata : String) → BuilderCall
  close_subscription_authority_call :
      (subscription_authority : String) (user : Signer) → BuilderCall
  revoke_subscription_authority_call :
      (subscription_authority token_mint token_program : String) (user : Signer) (user_ata : String)
      → BuilderCall
  create_fixed_delegation_call :
      (delegatee delegation_account : String) (delegator : Signer)
      (fixed_delegation : FixedDelegationData) (subscription_authority : String)
      → BuilderCall
  create_recurring_delegation_call :
      (delegatee delegation_account : String) (delegator : Signer)
      (recurring_delegation : RecurringDelegationData) (subscription_authority : String)
      → BuilderCall
  revoke_delegation_call : (authority : Signer) (delegation_account : String) → BuilderCall
  transfer_delegation_call :
      (kind : TransferKind) (events : EventAccounts) (delegatee : Signer)
      (delegation_pda delegator_ata receiver_ata subscription_authority token_mint
        token_program : String)
      (transfer_data : TransferData)
      → BuilderCall
  transfer_subscription_call :
      (events : EventAccounts) (caller : Signer)
      (delegator_ata plan_pda receiver_ata subscription_authority subscription_pda : String)
      (token_mint token_program : String) (transfer_data : TransferData)
      → BuilderCall
  create_plan_call :
      (merchant : Signer) (plan_data : PlanData) (plan_pda token_mint : String)
      (token_program : Option String)
      → BuilderCall
  update_plan_call :
      (events : EventAccounts) (owner : Signer) (plan_pda : String)
      (update_plan_data : UpdatePlanData)
      → BuilderCall
  delete_plan_call : (owner : Signer) (plan_pda : String) → BuilderCall
  subscribe_call :
      (events : EventAccounts) (merchant plan_pda : String) (subscribe_data : SubscribeData)
      (subscriber : Signer) (subscription_authority_pda : String)
      → BuilderCall
  cancel_subscription_call :
      (events : EventAccounts) (plan_pda : String) (subscriber : Signer)
      (subscription_pda : Option String)
      → BuilderCall
  cancel_subscription_now_call :
      (events : EventAccounts) (expected_current_period_start_ts : Quantity) (merchant : Signer)
      (plan_pda : String) (subscriber : Signer) (subscription_pda : Option String)
      → BuilderCall
  resume_subscription_call :
      (events : EventAccounts) (plan_pda : String) (expected_expires_at_ts : Quantity)
      (subscriber : Signer) (subscription_authority : String) (subscription_pda : Option String)
      → BuilderCall

-- The generated client; the last argument of a finder or builder is the `programAddress` of its
-- configuration, if there is one.
pub record GeneratedClient : Type 0 where
  pub program_address : String
  pub find_event_authority_pda : Option String → Result String
  pub find_subscription_authority_pda : (token_mint user : String) → Option String → Result String
  pub find_fixed_delegation_pda :
      (delegatee delegator : String) (nonce : Quantity) (subscription_authority : String)
      → Option String
      → Result String
  pub find_recurring_delegation_pda :
      (delegatee delegator : String) (nonce : Quantity) (subscription_authority : String)
      → Option String
      → Result String
  pub find_plan_pda : (owner : String) (plan_id : Quantity) → Option String → Result (String × ℕ)
  pub find_associated_token_pda : (mint owner token_program : String) → Result String
  pub get_instruction : BuilderCall → Option String → Result Instruction
  pub utf8_length : String → ℕ

-- The RPC: the plan account at an address, and the `initId` of an authority account if it exists.
pub record Rpc : Type 0 where
  pub fetch_plan : String → Result PlanData
  pub fetch_maybe_subscription_authority : String → Result (Option Quantity)
