-- ===== src/Mutations/Delegations.antt =====
-- webapp/src/hooks/use-subscriptions-mutations.ts: the instructions that the mutations on the
-- subscription authority, the delegations and their transfers send.
pub mod Laws
use multi_delegator.Base.{
  String, Bool, true, false, ◌&&◌, Option, none, some, List, [], ◌∷◌, is_some,
}
use multi_delegator.Base.Result.{Result, ok, ◌>>=◌}
use multi_delegator.Client.Types.{Instruction, Signer, Quantity, when_given}
use multi_delegator.Client.Generated.{TransferKind, fixed_transfer, recurring_transfer}
use multi_delegator.Mutations.{
  Services, connected, AuthorityAccount, HookState, configured, receiver_for, token_program_of,
  init_id_or_current,
}
use multi_delegator.Client.Delegations.{
  init_subscription_authority_overlay, close_subscription_authority_overlay,
  revoke_subscription_authority_overlay, create_fixed_delegation_overlay,
  create_recurring_delegation_overlay, revoke_delegation_overlay, transfer_fixed_overlay,
  transfer_recurring_overlay,
}
use multi_delegator.Client.Inputs.{TransferDelegationInput}
use multi_delegator.Client.Hook.{resolve_transfer_hook_accounts}

pub record InitAuthorityParams : Type 0 where
  pub token_mint : String
  pub token_program : String
  pub user_ata : String

pub record CloseAuthorityParams : Type 0 where
  pub token_mint : String
  pub payer : Option String

pub record FixedDelegationParams : Type 0 where
  pub amount : Quantity
  pub delegatee : String
  pub expected_init_id : Option Quantity
  pub expiry_ts : Quantity
  pub nonce : Quantity
  pub token_mint : String

pub record RecurringDelegationParams : Type 0 where
  pub amount_per_period : Quantity
  pub delegatee : String
  pub expected_init_id : Option Quantity
  pub expiry_ts : Quantity
  pub nonce : Quantity
  pub period_length_s : Quantity
  pub start_ts : Option Quantity
  pub token_mint : String

pub record TransferParams : Type 0 where
  pub amount : Quantity
  pub delegation_account : String
  pub delegator : String
  pub receiver_ata : Option String
  pub token_mint : String

-- `maybe.exists` of the account that was fetched
abbrev payer_of_account : Option AuthorityAccount → Option String
payer_of_account none = none
payer_of_account (some account) = some account.payer

abbrev or_else_result {ℓ} : {A : Type ℓ} → Option A → Result A → Result A
or_else_result none other = other
or_else_result (some a) other = ok a

module _ (services : Services) (state : HookState) where
  open services use {kit, check_address}

  unfoldable pub init_authority_instructions : InitAuthorityParams → Result (List Instruction)
  unfolding connected configured
  init_authority_instructions params = do
    signer ← connected state
    program ← configured state
    mint ← check_address params.token_mint
    token_program ← check_address params.token_program
    user_ata ← check_address params.user_ata
    ix ← init_subscription_authority_overlay kit (record {
      program_address = some program;
      owner = signer;
      payer = none;
      token_mint = mint;
      token_program = token_program;
      user_ata = user_ata;
    })
    ok (ix ∷ [])

  -- `storedPayer`: the payer that was given, or else that of the account, if it exists
  abbrev stored_payer :
      Signer → String → Option String → (token_mint : String) → Result (Option String)
  stored_payer signer program (some payer) token_mint = ok (some payer)
  stored_payer signer program none token_mint = do
    mint ← check_address token_mint
    authority ← kit.find_subscription_authority_pda mint signer.address (some program)
    account ← services.fetch_maybe_authority authority
    ok (payer_of_account account)

  abbrev stored_receiver : Signer → Option String → Result (Option String)
  stored_receiver signer none = ok none
  stored_receiver signer (some payer) = receiver_for check_address payer signer.address

  -- the closing instruction, or the one that revokes first where the token account is there
  abbrev close_or_revoke :
      Signer
      → (program mint token_program : String) → Option String
      → Bool
      → Instruction
      → Result (List Instruction)
  close_or_revoke signer program mint token_program receiver false close = ok (close ∷ [])
  close_or_revoke signer program mint token_program receiver true close = do
    ix ← revoke_subscription_authority_overlay kit (record {
      program_address = some program;
      receiver = receiver;
      token_mint = mint;
      token_program = token_program;
      user = signer;
    })
    ok (ix ∷ [])

  unfoldable pub close_authority_instructions : CloseAuthorityParams → Result (List Instruction)
  unfolding connected configured
  close_authority_instructions params = do
    signer ← connected state
    program ← configured state
    payer ← stored_payer signer program (when_given params.payer) params.token_mint
    receiver ← stored_receiver signer (when_given payer)
    mint ← check_address params.token_mint
    close ← close_subscription_authority_overlay kit (record {
      program_address = some program;
      receiver = receiver;
      token_mint = mint;
      user = signer;
    })
    token_program ← token_program_of services state mint
    user_ata ← kit.find_associated_token_pda mint signer.address token_program
    ata_owner ← services.fetch_account_owner user_ata
    close_or_revoke signer program mint token_program receiver
        (is_some ata_owner && state.revoke_feature) close

  unfoldable pub fixed_delegation_instructions : FixedDelegationParams → Result (List Instruction)
  unfolding connected configured
  fixed_delegation_instructions params = do
    signer ← connected state
    program ← configured state
    mint ← check_address params.token_mint
    delegatee ← check_address params.delegatee
    init_id ← init_id_or_current services state params.expected_init_id mint
    ix ← create_fixed_delegation_overlay kit (record {
      program_address = some program;
      amount = params.amount;
      delegatee = delegatee;
      delegator = signer;
      expected_subscription_authority_init_id = some init_id;
      expiry_ts = params.expiry_ts;
      nonce = params.nonce;
      payer = none;
      token_mint = mint;
    })
    ok (ix ∷ [])

  unfoldable pub recurring_delegation_instructions :
      RecurringDelegationParams → Result (List Instruction)
  unfolding connected configured
  recurring_delegation_instructions params = do
    signer ← connected state
    program ← configured state
    mint ← check_address params.token_mint
    delegatee ← check_address params.delegatee
    init_id ← init_id_or_current services state params.expected_init_id mint
    start_ts ← or_else_result params.start_ts services.block_timestamp
    ix ← create_recurring_delegation_overlay kit (record {
      program_address = some program;
      amount_per_period = params.amount_per_period;
      delegatee = delegatee;
      delegator = signer;
      expected_subscription_authority_init_id = some init_id;
      expiry_ts = params.expiry_ts;
      nonce = params.nonce;
      payer = none;
      period_length_s = params.period_length_s;
      start_ts = start_ts;
      token_mint = mint;
    })
    ok (ix ∷ [])

  unfoldable pub revoke_delegation_instructions :
      (delegation_account payer : String) → Result (List Instruction)
  unfolding connected
  revoke_delegation_instructions delegation_account payer = do
    signer ← connected state
    receiver ← receiver_for check_address payer signer.address
    account ← check_address delegation_account
    ix ← revoke_delegation_overlay kit (record {
      program_address = when_given state.prog_id;
      authority = signer;
      delegation_account = account;
      receiver = receiver;
    })
    ok (ix ∷ [])

  abbrev pub receiver_or_own : Option String → (mint own token_program : String) → Result String
  receiver_or_own none mint own token_program = kit.find_associated_token_pda mint own token_program
  receiver_or_own (some given) mint own token_program = check_address given

  abbrev pub transfer_overlay : TransferKind → TransferDelegationInput Signer → Result Instruction
  transfer_overlay fixed_transfer input = transfer_fixed_overlay kit input
  transfer_overlay recurring_transfer input = transfer_recurring_overlay kit input

  -- The end of `buildTransferIxs`, from the hook accounts on: the receiver's token account is created
  -- first, where it is missing.
  unfoldable pub transfer_to :
      Signer
      → (program mint token_program delegator delegator_ata receiver : String) → TransferParams
      → TransferKind
      → Result (List Instruction)
  transfer_to signer program mint token_program delegator delegator_ata receiver params kind = do
    authority ← kit.find_subscription_authority_pda mint delegator (some program)
    hook_accounts ← resolve_transfer_hook_accounts services.hooks (record {
      amount = params.amount;
      authority = authority;
      destination = receiver;
      mint = mint;
      source = delegator_ata;
      token_program = token_program;
      transfer_hook_accounts = none;
    })
    delegation_pda ← check_address params.delegation_account
    transfer ← transfer_overlay kind (record {
      program_address = some program;
      amount = params.amount;
      delegatee = signer;
      delegation_pda = delegation_pda;
      delegator = delegator;
      delegator_ata = delegator_ata;
      receiver_ata = receiver;
      token_mint = mint;
      token_program = token_program;
      transfer_hook_accounts = some hook_accounts;
    })
    ok (services.create_ata receiver mint signer.address signer token_program ∷ transfer ∷ [])

  unfoldable pub build_transfer_ixs : TransferParams → TransferKind → Result (List Instruction)
  unfolding connected configured transfer_to
  build_transfer_ixs params kind = do
    signer ← connected state
    program ← configured state
    mint ← check_address params.token_mint
    token_program ← token_program_of services state mint
    delegator ← check_address params.delegator
    delegator_ata ← kit.find_associated_token_pda mint delegator token_program
    receiver ← receiver_or_own (when_given params.receiver_ata) mint signer.address token_program
    transfer_to signer program mint token_program delegator delegator_ata receiver params kind
