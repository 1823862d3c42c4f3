-- ===== src/Mutations/Run.antt =====
-- webapp/src/hooks/use-subscriptions-mutations.ts: the mutations that send one transaction, each as
-- its instructions, signed and sent by the connected wallet.
use multi_delegator.Base.{String, ◌≡◌, List, [], ◌∷◌, ◌++◌}
use multi_delegator.Base.Result.{Result, ok}
use multi_delegator.Deploy.Adding.{accepted}
use mathlib.Core.Path.{subst}
use multi_delegator.Client.Types.{Instruction, Signer, Quantity}
use multi_delegator.Client.Generated.{fixed_transfer, recurring_transfer}
use multi_delegator.Deploy.Action.{Action, lift, ◌>>=◌, Network, World}
use multi_delegator.Mutations.{Services, connected, HookState}
use multi_delegator.Mutations.Wallet.{submit}
use multi_delegator.Mutations.Plans.{
  cancel_instructions, CreatePlanParams, UpdatePlanParams, SubscribeParams,
  create_plan_instructions, update_plan_instructions, delete_plan_instructions,
  subscribe_instructions, resume_instructions, resubscribe_instructions, revoke_instructions,
  cancel_and_revoke_instructions,
}
use multi_delegator.Mutations.Delegations.{
  InitAuthorityParams, CloseAuthorityParams, FixedDelegationParams, RecurringDelegationParams,
  TransferParams, init_authority_instructions, close_authority_instructions,
  fixed_delegation_instructions, recurring_delegation_instructions, revoke_delegation_instructions,
  build_transfer_ixs,
}
use multi_delegator.Mutations.Batches.Laws.{lift-eq-ok}
use multi_delegator.Mutations.Wallet.Laws.{sign_and_send-Writes}
use multi_delegator.Deploy.Outcome.{OnReturn}

-- a call of a mutation, with its parameters
pub data Mutation : Type 0 where
  init_subscription_authority : InitAuthorityParams → Mutation
  close_subscription_authority : CloseAuthorityParams → Mutation
  create_fixed_delegation : FixedDelegationParams → Mutation
  create_recurring_delegation : RecurringDelegationParams → Mutation
  revoke_delegation : (delegation_account payer : String) → Mutation
  transfer_fixed : TransferParams → Mutation
  transfer_recurring : TransferParams → Mutation
  create_plan : CreatePlanParams → Mutation
  update_plan : UpdatePlanParams → Mutation
  delete_plan : (plan_pda : String) → Mutation
  subscribe : SubscribeParams → Mutation
  cancel_subscription : (plan_pda subscription_pda : String) → Mutation
  resume_subscription :
      (expected_expires_at_ts : Quantity) (plan_pda subscription_pda token_mint : String) → Mutation
  resubscribe_stale_subscription : (plan_pda subscription_pda : String) → SubscribeParams → Mutation
  revoke_subscription : (subscription_pda plan_pda payer : String) → Mutation
  cancel_and_revoke_subscription : (subscription_pda plan_pda payer : String) → Mutation

module _ (services : Services) (state : HookState) where
  -- what the mutation sends
  unfoldable pub instructions_of : Mutation → Result (List Instruction)
  instructions_of (init_subscription_authority params) =
      init_authority_instructions services state params
  instructions_of (close_subscription_authority params) =
      close_authority_instructions services state params
  instructions_of (create_fixed_delegation params) =
      fixed_delegation_instructions services state params
  instructions_of (create_recurring_delegation params) =
      recurring_delegation_instructions services state params
  instructions_of (revoke_delegation delegation_account payer) =
      revoke_delegation_instructions services state delegation_account payer
  instructions_of (transfer_fixed params) = build_transfer_ixs services state params fixed_transfer
  instructions_of (transfer_recurring params) =
      build_transfer_ixs services state params recurring_transfer
  instructions_of (create_plan params) = create_plan_instructions services state params
  instructions_of (update_plan params) = update_plan_instructions services state params
  instructions_of (delete_plan plan_pda) = delete_plan_instructions services state plan_pda
  instructions_of (subscribe params) = subscribe_instructions services state params
  instructions_of (cancel_subscription plan_pda subscription_pda) =
      cancel_instructions services state plan_pda subscription_pda
  instructions_of (resume_subscription expected_expires_at_ts plan_pda subscription_pda mint) =
      resume_instructions services state expected_expires_at_ts plan_pda subscription_pda mint
  instructions_of (resubscribe_stale_subscription plan_pda subscription_pda params) =
      resubscribe_instructions services state plan_pda subscription_pda params
  instructions_of (revoke_subscription subscription_pda plan_pda payer) =
      revoke_instructions services state subscription_pda plan_pda payer
  instructions_of (cancel_and_revoke_subscription subscription_pda plan_pda payer) =
      cancel_and_revoke_instructions services state subscription_pda plan_pda payer

  module _ (net : Network) where
    -- every mutation tests the wallet before it builds anything
    unfoldable pub run_mutation : Mutation → Action String
    unfolding instructions_of connected
    run_mutation mutation =
        lift (connected state) >>= λ signer. submit net signer (instructions_of mutation)

    -- A mutation that returns has had one transaction taken by the network, with exactly the
    -- instructions that it builds for the connected wallet.
    pub run_mutation_sends :
        (mutation : Mutation) (w after : World) (signature : String)
        → run_mutation mutation w ≡ (ok signature, after)
        → (signer : Signer) × (instructions : List Instruction) × (connected state ≡ ok signer)
          × (instructions_of mutation ≡ ok instructions)
          × (accepted after.log ≡ accepted w.log ++ instructions ∷ [])
    unfolding run_mutation
    run_mutation_sends mutation w after signature returned =
        let (signer, has_signer, r1) = lift-eq-ok (connected state) _ w returned in
        let (instructions, built, r2) = lift-eq-ok (instructions_of mutation) _ w r1 in
        (
          signer,
          instructions,
          has_signer,
          built,
          subst (OnReturn (λ a v. accepted v.log ≡ accepted w.log ++ instructions ∷ [])) r2
              ((sign_and_send-Writes net instructions signer).writes w),
        )
