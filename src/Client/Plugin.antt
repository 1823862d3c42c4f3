-- ===== src/Client/Plugin.antt =====
-- clients/typescript/src/plugin.ts, `subscriptionsProgram`: the plugin's instructions that need no
-- fetch. The signers left out are the client's.
pub mod Laws
use multi_delegator.Base.{Option, none, some, ◌==◌, if◌then◌else◌, or_else}
use multi_delegator.Base.Result.{Result}
use multi_delegator.Client.Types.{Instruction, Signer}
use multi_delegator.Client.Inputs.{
  CreatePlanInput, InitSubscriptionAuthorityInput, CloseSubscriptionAuthorityInput,
  RevokeSubscriptionAuthorityInput, RevokeDelegationInput, RevokeSubscriptionInput, DeletePlanInput,
  CancelSubscriptionInput, CancelSubscriptionNowInput, ResumeSubscriptionInput,
}
use multi_delegator.Client.Generated.{GeneratedClient, Rpc}
use multi_delegator.Client.Delegations.{
  init_subscription_authority_overlay, close_subscription_authority_overlay,
  revoke_subscription_authority_overlay, revoke_delegation_overlay, revoke_subscription_overlay,
}
use multi_delegator.Client.Plans.{
  create_plan_overlay, delete_plan_overlay, cancel_subscription_overlay,
  cancel_subscription_now_overlay, resume_subscription_overlay,
}

pub record PluginClient : Type 0 where
  pub payer : Signer
  pub identity : Signer
  pub rpc : Rpc

module _ (kit : GeneratedClient) (client : PluginClient) where
  -- `input.payer ?? (client.payer === client.identity ? undefined : client.payer)`
  unfoldable pub payer_of : Option Signer → Option Signer
  payer_of (some payer) = some payer
  payer_of none = if client.payer.ref == client.identity.ref then none else some client.payer

  unfoldable pub cancel_subscription : CancelSubscriptionInput (Option Signer) → Result Instruction
  cancel_subscription input = cancel_subscription_overlay kit (record {
    program_address = input.program_address;
    plan_pda = input.plan_pda;
    subscriber = or_else input.subscriber client.identity;
    subscription_pda = input.subscription_pda;
  })

  unfoldable pub cancel_subscription_now :
      CancelSubscriptionNowInput (Option Signer) → Result Instruction
  cancel_subscription_now input = cancel_subscription_now_overlay kit (record {
    program_address = input.program_address;
    expected_current_period_start_ts = input.expected_current_period_start_ts;
    merchant = or_else input.merchant client.payer;
    plan_pda = input.plan_pda;
    subscriber = or_else input.subscriber client.identity;
    subscription_pda = input.subscription_pda;
  })

  unfoldable pub close_subscription_authority :
      CloseSubscriptionAuthorityInput (Option Signer) → Result Instruction
  close_subscription_authority input = close_subscription_authority_overlay kit (record {
    program_address = input.program_address;
    receiver = input.receiver;
    token_mint = input.token_mint;
    user = or_else input.user client.identity;
  })

  unfoldable pub create_plan : CreatePlanInput (Option Signer) → Result Instruction
  create_plan input = create_plan_overlay kit (record {
    program_address = input.program_address;
    amount = input.amount;
    destinations = input.destinations;
    end_ts = input.end_ts;
    metadata_uri = input.metadata_uri;
    mint = input.mint;
    owner = or_else input.owner client.identity;
    payer = payer_of input.payer;
    period_hours = input.period_hours;
    plan_id = input.plan_id;
    pullers = input.pullers;
    token_program = input.token_program;
  })

  unfoldable pub delete_plan : DeletePlanInput (Option Signer) → Result Instruction
  delete_plan input = delete_plan_overlay kit (record {
    program_address = input.program_address;
    owner = or_else input.owner client.identity;
    plan_pda = input.plan_pda;
  })

  unfoldable pub init_subscription_authority :
      InitSubscriptionAuthorityInput (Option Signer) → Result Instruction
  init_subscription_authority input = init_subscription_authority_overlay kit (record {
    program_address = input.program_address;
    owner = or_else input.owner client.identity;
    payer = payer_of input.payer;
    token_mint = input.token_mint;
    token_program = input.token_program;
    user_ata = input.user_ata;
  })

  unfoldable pub resume_subscription : ResumeSubscriptionInput (Option Signer) → Result Instruction
  resume_subscription input = resume_subscription_overlay kit (record {
    program_address = input.program_address;
    expected_expires_at_ts = input.expected_expires_at_ts;
    plan_pda = input.plan_pda;
    subscriber = or_else input.subscriber client.identity;
    subscription_pda = input.subscription_pda;
    token_mint = input.token_mint;
  })

  unfoldable pub revoke_delegation : RevokeDelegationInput (Option Signer) → Result Instruction
  revoke_delegation input = revoke_delegation_overlay kit (record {
    program_address = input.program_address;
    authority = or_else input.authority client.identity;
    delegation_account = input.delegation_account;
    receiver = input.receiver;
  })

  unfoldable pub revoke_subscription : RevokeSubscriptionInput (Option Signer) → Result Instruction
  revoke_subscription input = revoke_subscription_overlay kit (record {
    program_address = input.program_address;
    authority = or_else input.authority client.identity;
    plan_pda = input.plan_pda;
    receiver = input.receiver;
    subscription_pda = input.subscription_pda;
  })

  unfoldable pub revoke_subscription_authority :
      RevokeSubscriptionAuthorityInput (Option Signer) → Result Instruction
  revoke_subscription_authority input = revoke_subscription_authority_overlay kit (record {
    program_address = input.program_address;
    receiver = input.receiver;
    token_mint = input.token_mint;
    token_program = input.token_program;
    user = or_else input.user client.identity;
  })
