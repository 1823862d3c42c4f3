-- ===== src/Client/Transfers.antt =====
-- clients/typescript/src/plugin.ts, `subscriptionsProgram`: the plugin's transfers, which resolve the
-- accounts of the mint's transfer hook.
pub mod Laws
use multi_delegator.Base.{Option, some, List, or_else}
use multi_delegator.Base.Result.{Result, ◌>>=◌}
use multi_delegator.Client.Types.{Instruction, Signer, AccountMeta}
use multi_delegator.Client.Inputs.{TransferDelegationInput, TransferSubscriptionInput}
use multi_delegator.Client.Generated.{GeneratedClient}
use multi_delegator.Client.Overlay.{pda_config}
use multi_delegator.Client.Delegations.{
  transfer_fixed_overlay, transfer_recurring_overlay, transfer_subscription_overlay,
}
use multi_delegator.Client.Hook.{HookKit, resolve_transfer_hook_accounts}
use multi_delegator.Client.Plugin.{PluginClient}

module _ (kit : GeneratedClient) (hooks : HookKit) (client : PluginClient) where
  unfoldable pub resolve_delegation_hook_accounts :
      TransferDelegationInput (Option Signer) → Result (List AccountMeta)
  resolve_delegation_hook_accounts input = do
    authority ←
        kit.find_subscription_authority_pda input.token_mint input.delegator
          (pda_config input.program_address)
    resolve_transfer_hook_accounts hooks (record {
      amount = input.amount;
      authority = authority;
      destination = input.receiver_ata;
      mint = input.token_mint;
      source = input.delegator_ata;
      token_program = input.token_program;
      transfer_hook_accounts = input.transfer_hook_accounts;
    })

  -- `{ ...input, delegatee, transferHookAccounts }`
  abbrev pub with_hook_accounts :
      TransferDelegationInput (Option Signer) → List AccountMeta → TransferDelegationInput Signer
  with_hook_accounts input hook_accounts = record {
    program_address = input.program_address;
    amount = input.amount;
    delegatee = or_else input.delegatee client.identity;
    delegation_pda = input.delegation_pda;
    delegator = input.delegator;
    delegator_ata = input.delegator_ata;
    receiver_ata = input.receiver_ata;
    token_mint = input.token_mint;
    token_program = input.token_program;
    transfer_hook_accounts = some hook_accounts;
  }

  unfoldable pub transfer_fixed : TransferDelegationInput (Option Signer) → Result Instruction
  transfer_fixed input = do
    hook_accounts ← resolve_delegation_hook_accounts input
    transfer_fixed_overlay kit (with_hook_accounts input hook_accounts)

  unfoldable pub transfer_recurring : TransferDelegationInput (Option Signer) → Result Instruction
  transfer_recurring input = do
    hook_accounts ← resolve_delegation_hook_accounts input
    transfer_recurring_overlay kit (with_hook_accounts input hook_accounts)

  unfoldable pub transfer_subscription :
      TransferSubscriptionInput (Option Signer) → Result Instruction
  transfer_subscription input = do
    authority ←
        kit.find_subscription_authority_pda input.token_mint input.delegator
          (pda_config input.program_address)
    delegator_ata ←
        kit.find_associated_token_pda input.token_mint input.delegator input.token_program
    hook_accounts ← resolve_transfer_hook_accounts hooks (record {
      amount = input.amount;
      authority = authority;
      destination = input.receiver_ata;
      mint = input.token_mint;
      source = delegator_ata;
      token_program = input.token_program;
      transfer_hook_accounts = input.transfer_hook_accounts;
    })
    transfer_subscription_overlay kit (record {
      program_address = input.program_address;
      amount = input.amount;
      caller = or_else input.caller client.identity;
      delegator = input.delegator;
      plan_pda = input.plan_pda;
      receiver_ata = input.receiver_ata;
      subscription_pda = input.subscription_pda;
      token_mint = input.token_mint;
      token_program = input.token_program;
      transfer_hook_accounts = some hook_accounts;
    })
