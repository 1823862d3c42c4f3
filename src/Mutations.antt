-- ===== src/Mutations.antt =====
-- webapp/src/hooks/use-subscriptions-mutations.ts: what the mutations of the web application share,
-- and webapp/src/lib/token-program.ts. The wallet is in `Mutations.Wallet`.
pub mod Wallet
pub mod Delegations
pub mod Plans
pub mod Batches
pub mod Collect
pub mod Laws
pub mod Run
use multi_delegator.Base.{String, Bool, Option, none, some, List, [], ◌∷◌, str_eq, if◌then◌else◌}
use multi_delegator.Base.Result.{Result, ok, throw, ◌>>=◌}
use multi_delegator.Client.Delegations.{required}
use multi_delegator.Base.Dict.{Dict, get, put}
use multi_delegator.Client.Types.{
  Instruction, Signer, Quantity, AccountMeta, when_given, bigint, whole, fractional,
}
use multi_delegator.Client.Generated.{GeneratedClient}
use multi_delegator.Client.Hook.{HookKit, resolve_transfer_hook_accounts}
use multi_delegator.Js.Decimal.{template}

-- what the hook reads of a subscription authority account
pub record AuthorityAccount : Type 0 where
  pub init_id : Quantity
  pub payer : String

-- What the hook calls outside the repository: the kit's `address`, the RPC, the token program's and
-- the generated builders that have no overlay.
pub record Services : Type 0 where
  pub kit : GeneratedClient
  pub hooks : HookKit
  pub check_address : String → Result String
  pub fetch_maybe_authority : String → Result (Option AuthorityAccount)
  pub fetch_account_owner : String → Result (Option String)
  pub block_timestamp : Result Quantity
  pub create_ata : (ata mint owner : String) (payer : Signer) (token_program : String) → Instruction
  pub revoke_abandoned_delegation :
      (delegation_account : String) (payer : Signer) (subscription_authority program : String)
      → Instruction
  pub revoke_abandoned_subscription :
      (payer : Signer) (plan_pda subscription_account subscription_authority program : String)
      → Instruction

-- what the hook is given: the wallet, the program, the cluster's URL, the features and the cache of
-- token programs
pub record HookState : Type 0 where
  pub signer : Option Signer
  pub prog_id : Option String
  pub rpc_url : String
  pub revoke_feature : Bool
  pub token_programs : Dict String

abbrev pub not_configured : String
not_configured = "Program address not configured"

abbrev pub authority_not_initialized : String
authority_not_initialized = "Subscription authority is not initialized for this token mint."

-- `if (!signer) throw …`, with the signer behind it
unfoldable pub connected : HookState → Result Signer
connected state = required state.signer "Wallet not connected"

-- `progId`: the empty text counts as missing
unfoldable pub configured : HookState → Result String
configured state = required (when_given state.prog_id) not_configured

-- `BigInt(n)`
abbrev pub big_int_of : Quantity → Result Quantity
big_int_of (bigint z) = ok (bigint z)
big_int_of (whole z) = ok (bigint z)
big_int_of fractional =
    throw "The number cannot be converted to a BigInt because it is not an integer"

abbrev pub check_all_addresses : (String → Result String) → List String → Result (List String)
check_all_addresses check [] = ok []
check_all_addresses check (text ∷ texts) = do
  address ← check text
  addresses ← check_all_addresses check texts
  ok (address ∷ addresses)

-- `payer !== signer.address ? address(payer) : undefined`
abbrev pub receiver_for : (String → Result String) → (payer own : String) → Result (Option String)
receiver_for check payer own =
    if str_eq payer own then ok none else (check payer >>= λ address. ok (some address))

module _ (services : Services) where
  open services use {kit}

  abbrev fetched_program : String → Option String → Result String
  fetched_program mint none = throw (template ("Mint " ∷ mint ∷ " not found" ∷ []))
  fetched_program mint (some owner) = ok owner

  abbrev pub with_cached :
      String → String → Dict String → Result String → Result String × Dict String
  with_cached key mint cache (throw message) = (throw message, cache)
  with_cached key mint cache (ok owner) = (ok owner, put cache key owner)

  abbrev pub program_or_fetch :
      String → String → Dict String → Option String → Result String × Dict String
  program_or_fetch key mint cache (some owner) = (ok owner, cache)
  program_or_fetch key mint cache none =
      with_cached key mint cache
        (services.fetch_account_owner mint >>= λ found. fetched_program mint found)

  -- the program that owns the mint, and the cache afterwards
  unfoldable pub resolve_token_program :
      (rpc_url mint : String) → Dict String → Result String × Dict String
  resolve_token_program rpc_url mint cache =
      let key = template (rpc_url ∷ ":" ∷ mint ∷ []) in
      program_or_fetch key mint cache (when_given (get cache key))

  module _ (state : HookState) where
    abbrev pub token_program_of : String → Result String
    unfolding resolve_token_program
    token_program_of mint = (resolve_token_program state.rpc_url mint state.token_programs).0

    abbrev init_id_of : Option AuthorityAccount → Result Quantity
    init_id_of none = throw authority_not_initialized
    init_id_of (some account) = ok account.init_id

    unfoldable pub fetch_current_authority_init_id : String → Result Quantity
    unfolding connected configured
    fetch_current_authority_init_id token_mint = do
      signer ← connected state
      program ← configured state
      authority ← kit.find_subscription_authority_pda token_mint signer.address (some program)
      account ← services.fetch_maybe_authority authority
      init_id_of account

    -- `expected ?? (await fetchCurrentAuthorityInitId(mint))`
    abbrev pub init_id_or_current : Option Quantity → String → Result Quantity
    unfolding fetch_current_authority_init_id
    init_id_or_current (some init_id) mint = ok init_id
    init_id_or_current none mint = fetch_current_authority_init_id mint

    unfoldable pub resolve_subscription_hook_accounts :
        (mint delegator receiver_ata : String) (amount : Quantity) (token_program : String)
        → Result (List AccountMeta)
    unfolding configured
    resolve_subscription_hook_accounts mint delegator receiver_ata amount token_program = do
      program ← configured state
      authority ← kit.find_subscription_authority_pda mint delegator (some program)
      delegator_ata ← kit.find_associated_token_pda mint delegator token_program
      resolve_transfer_hook_accounts services.hooks (record {
        amount = amount;
        authority = authority;
        destination = receiver_ata;
        mint = mint;
        source = delegator_ata;
        token_program = token_program;
        transfer_hook_accounts = none;
      })
