-- ===== src/Mutations/Batches.antt =====
-- webapp/src/hooks/use-subscriptions-mutations.ts: the mutations that send several transactions, as
-- tx-packer.ts packs them.
pub mod Laws
use multi_delegator.Base.{ℕ, String, Option, some, List, [], ◌∷◌, map, length}
use multi_delegator.Base.Result.{Result, ok}
use multi_delegator.Base.Result.{◌>>=◌ as chain}
use multi_delegator.Client.Types.{Instruction, Signer}
use multi_delegator.Deploy.Action.{Action, pure, lift, ◌>>=◌, Network}
use multi_delegator.Packer.{pack_instruction_batches}
use multi_delegator.Mutations.{Services, connected, HookState, configured, receiver_for}
use multi_delegator.Mutations.Wallet.{sign_and_send}
use multi_delegator.Client.Delegations.{revoke_delegation_overlay}

-- a delegation with the one who paid for its account
pub record RevocableDelegation : Type 0 where
  pub address : String
  pub payer : String

pub record RevokeResult : Type 0 where
  pub revoked : ℕ
  pub signatures : List String

-- the first error, or every value
abbrev pub all_ok {ℓ} : {A : Type ℓ} → List (Result A) → Result (List A)
all_ok [] = ok []
all_ok (r ∷ rest) = chain r λ a. chain (all_ok rest) λ others. ok (a ∷ others)

module _ (net : Network) where
  -- the loop over the batches
  unfoldable pub send_in_order : List (List Instruction) → Signer → Action (List String)
  send_in_order [] signer = pure []
  send_in_order (batch ∷ batches) signer = do
    signature ← sign_and_send net batch signer
    signatures ← send_in_order batches signer
    pure (signature ∷ signatures)

  module _ (services : Services) (state : HookState)
      (wire : List Instruction → Option (List ℕ)) where
    open services use {kit, check_address}

    abbrev pub revoke_one : Signer → String → RevocableDelegation → Result Instruction
    unfolding revoke_delegation_overlay
    revoke_one signer program delegation =
        chain (receiver_for check_address delegation.payer signer.address) λ receiver.
          chain (check_address delegation.address) λ account.
            revoke_delegation_overlay kit (record {
              program_address = some program;
              authority = signer;
              delegation_account = account;
              receiver = receiver;
            })

    unfoldable pub revoke_multiple_delegations : List RevocableDelegation → Action RevokeResult
    unfolding connected configured send_in_order
    revoke_multiple_delegations delegations = do
      signer ← lift (connected state)
      program ← lift (configured state)
      instructions ← lift (all_ok (map (revoke_one signer program) delegations))
      signatures ← send_in_order (pack_instruction_batches wire instructions []) signer
      pure (record { revoked = length delegations; signatures = signatures })

    abbrev pub abandon_one : Signer → (authority program account : String) → Result Instruction
    abandon_one signer authority program account =
        chain (check_address account) λ delegation_account.
          ok (services.revoke_abandoned_delegation delegation_account signer authority program)

    unfoldable pub revoke_abandoned_delegations :
        (token_mint : String) (delegation_accounts : List String) → Action RevokeResult
    unfolding connected configured send_in_order
    revoke_abandoned_delegations token_mint delegation_accounts = do
      signer ← lift (connected state)
      program ← lift (configured state)
      mint ← lift (check_address token_mint)
      authority ← lift (kit.find_subscription_authority_pda mint signer.address (some program))
      instructions ← lift (all_ok (map (abandon_one signer authority program) delegation_accounts))
      signatures ← send_in_order (pack_instruction_batches wire instructions []) signer
      pure (record { revoked = length delegation_accounts; signatures = signatures })
