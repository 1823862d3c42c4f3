-- ===== src/Client/Delegations.antt =====
-- clients/typescript/src/plugin.ts: the overlay builders for subscription authorities, delegations
-- and transfers.

use multi_delegator.Base.{String, Option, none, some, List, [], ◌∷◌, or_else}
use multi_delegator.Base.Result.{Result, ok, throw, ◌>>=◌, ◌>>◌}
use multi_delegator.Client.Types.{Instruction, Signer, AccountMeta, when_given, readonly, writable}
use multi_delegator.Client.Inputs.{
  TransferDelegationInput, InitSubscriptionAuthorityInput, CloseSubscriptionAuthorityInput,
  RevokeSubscriptionAuthorityInput, CreateFixedDelegationInput, CreateRecurringDelegationInput,
  RevokeDelegationInput, RevokeSubscriptionInput, TransferSubscriptionInput,
}
use multi_delegator.Client.Generated.{
  GeneratedClient, TransferKind, fixed_transfer, recurring_transfer,
  init_subscription_authority_call, close_subscription_authority_call,
  revoke_subscription_authority_call, create_fixed_delegation_call,
  create_recurring_delegation_call, revoke_delegation_call, transfer_delegation_call,
  transfer_subscription_call,
}
use multi_delegator.Client.Overlay.{
  pda_config, with_trailing, append_payer, plain_meta, append_receiver, event_accounts,
}
use multi_delegator.Client.Validators.{assert_positive}

abbrev pub missing_fixed_init_id : String
missing_fixed_init_id =
    "getCreateFixedDelegationOverlayInstructionAsync requires expectedSubscriptionAuthorityInitId. Use the plugin client `subscriptions.instructions.createFixedDelegation(...)` to auto-fetch from the live authority."

abbrev pub missing_recurring_init_id : String
missing_recurring_init_id =
    "getCreateRecurringDelegationOverlayInstructionAsync requires expectedSubscriptionAuthorityInitId. Use the plugin client `subscriptions.instructions.createRecurringDelegation(...)` to auto-fetch from the live authority."

-- `if (x === undefined) throw new Error(message)`, with the value behind the test
abbrev pub required {ℓ} : {A : Type ℓ} → Option A → String → Result A
required none message = throw message
required (some a) message = ok a

module _ (kit : GeneratedClient) where
  unfoldable pub init_subscription_authority_overlay :
      InitSubscriptionAuthorityInput Signer → Result Instruction
  init_subscription_authority_overlay input = do
    ix ←
        kit.get_instruction
          (init_subscription_authority_call input.owner input.token_mint input.token_program
            input.user_ata)
          (pda_config input.program_address)
    ok (append_payer ix input.payer)

  unfoldable pub close_subscription_authority_overlay :
      CloseSubscriptionAuthorityInput Signer → Result Instruction
  close_subscription_authority_overlay input = do
    authority ←
        kit.find_subscription_authority_pda input.token_mint input.user.address
          (pda_config input.program_address)
    ix ←
        kit.get_instruction (close_subscription_authority_call authority input.user)
          (pda_config input.program_address)
    ok (append_receiver ix input.receiver)

  unfoldable pub revoke_subscription_authority_overlay :
      RevokeSubscriptionAuthorityInput Signer → Result Instruction
  revoke_subscription_authority_overlay input = do
    user_ata ← kit.find_associated_token_pda input.token_mint input.user.address input.token_program
    authority ←
        kit.find_subscription_authority_pda input.token_mint input.user.address
          (pda_config input.program_address)
    ix ←
        kit.get_instruction
          (revoke_subscription_authority_call authority input.token_mint input.token_program
            input.user user_ata)
          (pda_config input.program_address)
    ok (append_receiver ix input.receiver)

  unfoldable pub create_fixed_delegation_overlay :
      CreateFixedDelegationInput Signer → Result Instruction
  create_fixed_delegation_overlay input = do
    assert_positive input.amount "amount"
    init_id ← required input.expected_subscription_authority_init_id missing_fixed_init_id
    authority ←
        kit.find_subscription_authority_pda input.token_mint input.delegator.address
          (pda_config input.program_address)
    delegation_pda ←
        kit.find_fixed_delegation_pda input.delegatee input.delegator.address input.nonce authority
          (pda_config input.program_address)
    ix ←
        kit.get_instruction
          (create_fixed_delegation_call input.delegatee delegation_pda input.delegator
            (record {
              amount = input.amount;
              expected_subscription_authority_init_id = init_id;
              expiry_ts = input.expiry_ts;
              nonce = input.nonce;
            })
            authority)
          (pda_config input.program_address)
    ok (append_payer ix input.payer)

  unfoldable pub create_recurring_delegation_overlay :
      CreateRecurringDelegationInput Signer → Result Instruction
  create_recurring_delegation_overlay input = do
    assert_positive input.amount_per_period "amountPerPeriod"
    assert_positive input.period_length_s "periodLengthS"
    init_id ← required input.expected_subscription_authority_init_id missing_recurring_init_id
    authority ←
        kit.find_subscription_authority_pda input.token_mint input.delegator.address
          (pda_config input.program_address)
    delegation_pda ←
        kit.find_recurring_delegation_pda input.delegatee input.delegator.address input.nonce
          authority (pda_config input.program_address)
    ix ←
        kit.get_instruction
          (create_recurring_delegation_call input.delegatee delegation_pda input.delegator
            (record {
              amount_per_period = input.amount_per_period;
              expected_subscription_authority_init_id = init_id;
              expiry_ts = input.expiry_ts;
              nonce = input.nonce;
              period_length_s = input.period_length_s;
              start_ts = input.start_ts;
            })
            authority)
          (pda_config input.program_address)
    ok (append_payer ix input.payer)

  unfoldable pub revoke_delegation_overlay : RevokeDelegationInput Signer → Result Instruction
  revoke_delegation_overlay input = do
    ix ←
        kit.get_instruction (revoke_delegation_call input.authority input.delegation_account)
          (pda_config input.program_address)
    ok (append_receiver ix input.receiver)

  -- the trailing accounts `[planPda, receiver?]`
  abbrev pub revoke_subscription_trailing : RevokeSubscriptionInput Signer → List AccountMeta
  revoke_subscription_trailing input = elim (when_given input.receiver) [
    | none ↦ plain_meta input.plan_pda readonly ∷ []
    | some address ↦ plain_meta input.plan_pda readonly ∷ plain_meta address writable ∷ []
  ]

  unfoldable pub revoke_subscription_overlay : RevokeSubscriptionInput Signer → Result Instruction
  revoke_subscription_overlay input = do
    ix ←
        kit.get_instruction (revoke_delegation_call input.authority input.subscription_pda)
          (pda_config input.program_address)
    ok (with_trailing ix (revoke_subscription_trailing input))

  unfoldable pub transfer_delegation_overlay :
      TransferDelegationInput Signer → TransferKind → Result Instruction
  transfer_delegation_overlay input kind = do
    assert_positive input.amount "amount"
    authority ←
        kit.find_subscription_authority_pda input.token_mint input.delegator
          (pda_config input.program_address)
    events ← event_accounts kit input.program_address
    ix ←
        kit.get_instruction
          (transfer_delegation_call kind events input.delegatee input.delegation_pda
            input.delegator_ata input.receiver_ata authority input.token_mint input.token_program
            (record {
              amount = input.amount;
              delegator = input.delegator;
              mint = input.token_mint;
            }))
          (pda_config input.program_address)
    ok (with_trailing ix (or_else input.transfer_hook_accounts []))

  unfoldable pub transfer_fixed_overlay : TransferDelegationInput Signer → Result Instruction
  transfer_fixed_overlay input = transfer_delegation_overlay input fixed_transfer

  unfoldable pub transfer_recurring_overlay : TransferDelegationInput Signer → Result Instruction
  transfer_recurring_overlay input = transfer_delegation_overlay input recurring_transfer

  unfoldable pub transfer_subscription_overlay :
      TransferSubscriptionInput Signer → Result Instruction
  transfer_subscription_overlay input = do
    assert_positive input.amount "amount"
    authority ←
        kit.find_subscription_authority_pda input.token_mint input.delegator
          (pda_config input.program_address)
    delegator_ata ←
        kit.find_associated_token_pda input.token_mint input.delegator input.token_program
    events ← event_accounts kit input.program_address
    ix ←
        kit.get_instruction
          (transfer_subscription_call events input.caller delegator_ata input.plan_pda
            input.receiver_ata authority input.subscription_pda input.token_mint input.token_program
            (record {
              amount = input.amount;
              delegator = input.delegator;
              mint = input.token_mint;
            }))
          (pda_config input.program_address)
    ok (with_trailing ix (or_else input.transfer_hook_accounts []))
