-- ===== src/Mutations/Delegations/Laws.antt =====
-- webapp/src/hooks/use-subscriptions-mutations.ts, `buildTransferIxs`: against the plugin's transfer.
use multi_delegator.Base.{
  String, ◌≡◌, refl, sym, ap, ◌∙◌, inl, inr, Option, none, some, List, [], ◌∷◌, str_eq, Bool-cases,
}
use multi_delegator.Base.Result.{Result, ok, ◌>>=◌, >>=-eq-ok, ok_inj}
use multi_delegator.Client.Generated.{GeneratedClient, fixed_transfer}
use multi_delegator.Client.Types.{AccountMeta, Signer, Instruction, when_given}
use multi_delegator.Client.Delegations.{required, transfer_fixed_overlay}
use multi_delegator.Client.Transfers.{
  transfer_fixed, resolve_delegation_hook_accounts, with_hook_accounts,
}
use multi_delegator.Mutations.{
  Services, connected, HookState, configured, not_configured, token_program_of,
}
use multi_delegator.Mutations.Delegations.{
  build_transfer_ixs, TransferParams, receiver_or_own, transfer_to, transfer_overlay,
}
use multi_delegator.Client.Inputs.{TransferDelegationInput}
use multi_delegator.Client.Overlay.{pda_config}
use multi_delegator.Client.Plugin.{PluginClient}
use multi_delegator.Deploy.Writing.{has_authority}
use multi_delegator.Client.Hook.{resolve_transfer_hook_accounts, HookKit}

-- a program that is configured has an address that is not the empty text
when_given_idempotent :
    (o : Option String) (message : String) (text : String)
    → required (when_given o) message ≡ ok text
    → when_given (some text) ≡ some text
when_given_idempotent none message text h = cc
when_given_idempotent (some given) message text h = elim (Bool-cases (str_eq given "")) [
  | inl empty ↦ cc
  | inr full ↦ let same : given ≡ text = ok_inj (rw full at h) in rw (← same, full) refl
]

pda_config-configured :
    (state : HookState) (program : String)
    → configured state ≡ ok program
    → pda_config (some program) ≡ some program
unfolding configured pda_config
pda_config-configured state program h = when_given_idempotent state.prog_id not_configured program h

pub >>=-ok :
    {A B : Type 0} (first : Result A) (next : A → Result B) {a : A} {r : Result B}
    → first ≡ ok a
    → next a ≡ r
    → (first >>= next) ≡ r
>>=-ok first next h e = ap (λ f. f >>= next) h ∙ e

-- the plugin's transfer, from the steps that it takes
transfer_fixed-steps :
    (kit : GeneratedClient) (hooks : HookKit) (client : PluginClient)
    (input : TransferDelegationInput (Option Signer)) (program : Option String) {authority : String}
    {hook_accounts : List AccountMeta} {transfer : Instruction}
    → pda_config input.program_address ≡ program
    → kit.find_subscription_authority_pda input.token_mint input.delegator program ≡ ok authority
    → resolve_transfer_hook_accounts hooks (record {
      amount = input.amount;
      authority = authority;
      destination = input.receiver_ata;
      mint = input.token_mint;
      source = input.delegator_ata;
      token_program = input.token_program;
      transfer_hook_accounts = input.transfer_hook_accounts;
    })
      ≡ ok hook_accounts
    → transfer_fixed_overlay kit (with_hook_accounts kit hooks client input hook_accounts)
      ≡ ok transfer
    → transfer_fixed kit hooks client input ≡ ok transfer
unfolding transfer_fixed resolve_delegation_hook_accounts
transfer_fixed-steps kit hooks client input program config found resolved made =
    >>=-ok _ _
      (>>=-ok _ _
        (ap (kit.find_subscription_authority_pda input.token_mint input.delegator) config ∙ found)
        resolved)
      made

module _ (services : Services) (state : HookState) where
  open services use {kit, hooks, check_address}

  -- the input of the plugin for the same transfer
  abbrev plugin_input :
      Signer
      → (program mint token_program delegator delegator_ata receiver delegation_pda : String)
      → TransferParams
      → TransferDelegationInput (Option Signer)
  plugin_input signer program mint token_program delegator delegator_ata receiver delegation_pda
        params =
      record {
        program_address = some program;
        amount = params.amount;
        delegatee = some signer;
        delegation_pda = delegation_pda;
        delegator = delegator;
        delegator_ata = delegator_ata;
        receiver_ata = receiver;
        token_mint = mint;
        token_program = token_program;
        transfer_hook_accounts = none;
      }

  -- what the addresses of the transfer are, by the parameters and the state of the hook
  pub record IsResolved (params : TransferParams) (signer : Signer)
      (program mint token_program delegator delegator_ata receiver delegation_pda : String)
      : Type 0 where
    pub program_is : configured state ≡ ok program
    pub mint_is : check_address params.token_mint ≡ ok mint
    pub token_program_is : token_program_of services state mint ≡ ok token_program
    pub delegator_is : check_address params.delegator ≡ ok delegator
    pub delegator_ata_is :
        kit.find_associated_token_pda mint delegator token_program ≡ ok delegator_ata
    pub receiver_is :
        receiver_or_own services state
          (when_given params.receiver_ata)
          mint
          signer.address
          token_program
        ≡ ok receiver
    pub delegation_is : check_address params.delegation_account ≡ ok delegation_pda

  -- the two instructions, and the plugin's transfer to the same account
  abbrev pub IsTransferOf : PluginClient → TransferParams → Signer → List Instruction → Type 0
  IsTransferOf client params signer ixs =
      (program mint token_program delegator delegator_ata receiver delegation_pda : String)
      × (transfer : Instruction) × IsResolved params signer program mint token_program delegator
          delegator_ata receiver delegation_pda
      × (ixs
          ≡ services.create_ata receiver mint signer.address signer token_program ∷ transfer ∷ [])
      × (transfer_fixed kit hooks client (
            plugin_input signer program mint token_program delegator delegator_ata receiver
              delegation_pda params)
          ≡ ok transfer)

  transfer_to-IsTransferOf :
      (client : PluginClient) (params : TransferParams) (signer : Signer)
      (program mint token_program delegator delegator_ata receiver : String)
      (ixs : List Instruction)
      → ((delegation_pda : String)
          → check_address params.delegation_account ≡ ok delegation_pda
          → IsResolved params signer program mint token_program delegator delegator_ata receiver
              delegation_pda)
      → pda_config (some program) ≡ some program
      → transfer_to services state signer program mint token_program delegator delegator_ata
          receiver params fixed_transfer
        ≡ ok ixs
      → IsTransferOf client params signer ixs
  unfolding transfer_to
  transfer_to-IsTransferOf client params signer program mint token_program delegator delegator_ata
        receiver ixs resolved config built =
      let (authority, has_authority, r1) = >>=-eq-ok _ _ built in
      let (hook_accounts, has_hooks, r2) =
        >>=-eq-ok (resolve_transfer_hook_accounts hooks _) _ r1 in
      let (delegation_pda, has_pda, r3) =
        >>=-eq-ok (check_address params.delegation_account) _ r2 in
      let (transfer, has_transfer, r4) =
        >>=-eq-ok (transfer_overlay services state fixed_transfer _) _ r3 in
      (
        program,
        mint,
        token_program,
        delegator,
        delegator_ata,
        receiver,
        delegation_pda,
        transfer,
        resolved delegation_pda has_pda,
        sym (ok_inj r4),
        transfer_fixed-steps kit hooks client
            (plugin_input signer program mint token_program delegator delegator_ata receiver
              delegation_pda params)
            (some program) config has_authority has_hooks has_transfer,
      )

  -- Where `transferFixed` of the hook has instructions to send, they are two: the token account of
  -- the receiver, created if it is missing, and then the transfer to that account that the client's
  -- plugin builds for the connected wallet, hook accounts included, whatever the plugin's own
  -- identity. The plugin's input has the mint, the delegator and the delegation of the parameters, the
  -- token program of the mint, the delegator's token account, and the receiver that the parameters
  -- name, or else the wallet's own token account.
  pub build_transfer_ixs_ok :
      (client : PluginClient) (params : TransferParams) (ixs : List Instruction)
      → build_transfer_ixs services state params fixed_transfer ≡ ok ixs
      → (signer : Signer) × (connected state ≡ ok signer) × IsTransferOf client params signer ixs
  unfolding build_transfer_ixs
  build_transfer_ixs_ok client params ixs built =
      let (signer, has_signer, r1) = >>=-eq-ok (connected state) _ built in
      let (program, has_program, r2) = >>=-eq-ok (configured state) _ r1 in
      let (mint, has_mint, r3) = >>=-eq-ok (check_address params.token_mint) _ r2 in
      let (token_program, has_token_program, r4) =
        >>=-eq-ok (token_program_of services state mint) _ r3 in
      let (delegator, has_delegator, r5) = >>=-eq-ok (check_address params.delegator) _ r4 in
      let (delegator_ata, has_ata, r6) =
        >>=-eq-ok (kit.find_associated_token_pda mint delegator token_program) _ r5 in
      let (receiver, has_receiver, r7) =
        >>=-eq-ok
          (receiver_or_own services state (when_given params.receiver_ata) mint signer.address
            token_program)
          _ r6 in
      (
        signer,
        has_signer,
        transfer_to-IsTransferOf client params signer program mint token_program delegator
            delegator_ata receiver ixs
            (λ delegation_pda has_pda. record {
              program_is = has_program;
              mint_is = has_mint;
              token_program_is = has_token_program;
              delegator_is = has_delegator;
              delegator_ata_is = has_ata;
              receiver_is = has_receiver;
              delegation_is = has_pda;
            })
            (pda_config-configured state program has_program) r7,
      )
