-- ===== src/Client/Transfers/Laws.antt =====
-- What the plugin's transfers send, with the accounts of the mint's transfer hook.
use multi_delegator.Base.{String, ◌≡◌, Option, List, [], ◌++◌, or_else}
use multi_delegator.Base.Result.{ok, >>=-eq-ok, >>-eq-ok}
use multi_delegator.Client.Types.{Instruction, Signer, AccountMeta}
use multi_delegator.Client.Inputs.{TransferDelegationInput}
use multi_delegator.Client.Generated.{
  GeneratedClient, fixed_transfer, EventAccounts, TransferKind, transfer_delegation_call,
}
use multi_delegator.Client.Delegations.{transfer_delegation_overlay, transfer_fixed_overlay}
use multi_delegator.Client.Plugin.{PluginClient}
use multi_delegator.Client.Transfers.{
  transfer_fixed, resolve_delegation_hook_accounts, with_hook_accounts,
}
use multi_delegator.Client.Hook.{HookKit}
use multi_delegator.Client.Plans.Laws.{IsPositive, assert_positive-ok}
use multi_delegator.Client.Validators.{assert_positive}
use multi_delegator.Client.Overlay.{pda_config, event_accounts}
use multi_delegator.Client.Overlay.Laws.{accounts_of, built_with_trailing}

module _ (kit : GeneratedClient) where
  transfer_delegation_overlay_ok :
      (input : TransferDelegationInput Signer) (kind : TransferKind) {ix : Instruction}
      → transfer_delegation_overlay kit input kind ≡ ok ix
      → (authority : String) × (events : EventAccounts) × (base : Instruction) × IsPositive
          input.amount
        × (kit.find_subscription_authority_pda input.token_mint input.delegator
              (pda_config input.program_address)
            ≡ ok authority)
        × (kit.get_instruction
              (transfer_delegation_call kind events input.delegatee input.delegation_pda
                input.delegator_ata input.receiver_ata authority input.token_mint
                input.token_program
                (record {
                  amount = input.amount;
                  delegator = input.delegator;
                  mint = input.token_mint;
                }))
              (pda_config input.program_address)
            ≡ ok base)
        × (accounts_of ix ≡ accounts_of base ++ or_else input.transfer_hook_accounts [])
  unfolding transfer_delegation_overlay
  transfer_delegation_overlay_ok input kind {ix} e =
      let (a, e1) = >>-eq-ok (assert_positive input.amount "amount") _ e in
      let (authority, f, e2) =
        >>=-eq-ok
          (kit.find_subscription_authority_pda input.token_mint input.delegator
            (pda_config input.program_address))
          _ e1 in
      let (events, _, e3) = >>=-eq-ok (event_accounts kit input.program_address) _ e2 in
      let (base, b, t) = built_with_trailing _ (or_else input.transfer_hook_accounts []) ix e3 in
      (authority, events, base, assert_positive-ok input.amount "amount" tt a, f, b, t)

module _ (kit : GeneratedClient) (hooks : HookKit) (client : PluginClient) where
  -- Where a fixed transfer returns an instruction, its amount is positive, the hook accounts were
  -- resolved for the authority of the delegator and the mint, the generated builder was called with
  -- that authority and with the input's delegatee or else the client's identity, and the hook
  -- accounts stand behind the accounts it returned.
  pub transfer_fixed_ok :
      (input : TransferDelegationInput (Option Signer)) {ix : Instruction}
      → transfer_fixed kit hooks client input ≡ ok ix
      → (hook_accounts : List AccountMeta) × (authority : String) × (events : EventAccounts)
        × (base : Instruction) × IsPositive input.amount
        × (resolve_delegation_hook_accounts kit hooks client input ≡ ok hook_accounts)
        × (kit.find_subscription_authority_pda input.token_mint input.delegator
              (pda_config input.program_address)
            ≡ ok authority)
        × (kit.get_instruction
              (transfer_delegation_call fixed_transfer events
                (or_else input.delegatee client.identity)
                input.delegation_pda
                input.delegator_ata
                input.receiver_ata
                authority
                input.token_mint
                input.token_program
                (record {
                  amount = input.amount;
                  delegator = input.delegator;
                  mint = input.token_mint;
                }))
              (pda_config input.program_address)
            ≡ ok base)
        × (accounts_of ix ≡ accounts_of base ++ hook_accounts)
  unfolding transfer_fixed transfer_fixed_overlay
  transfer_fixed_ok input {ix} e =
      let (hook_accounts, h, e1) =
        >>=-eq-ok (resolve_delegation_hook_accounts kit hooks client input) _ e in
      let (authority, events, base, p, f, b, t) =
        transfer_delegation_overlay_ok kit (with_hook_accounts kit hooks client input hook_accounts)
          fixed_transfer e1 in
      (hook_accounts, authority, events, base, p, h, f, b, t)
