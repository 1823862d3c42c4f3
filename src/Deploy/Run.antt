-- ===== src/Deploy/Run.antt =====
-- webapp/src/hooks/use-program-deploy.ts: the `deploy` mutation.
use multi_delegator.Base.{
  ℕ, String, Bool, not, ◌&&◌, ◌||◌, Option, none, some, List, if◌then◌else◌, is_some, or_else,
}
use multi_delegator.Base.Result.{ok}
use multi_delegator.Deploy.Action.{
  Action, pure, raise, ask, Network, ◌>>=◌, try_catch, wallet_not_connected, set_progress,
  clear_recovery_refs, phase_deploying, phase_done, phase_preparing, key_generated,
}
use multi_delegator.Deploy.Funding.{fetch_or_resume_plan, store_plan, fund_buffer_and_fee_payer}
use multi_delegator.Loader.Plan.{DeployPlan}
use multi_delegator.Client.Types.{Signer, when_given}
use multi_delegator.Deploy.Writing.{write_chunks, transfer_buffer_authority}
use multi_delegator.Deploy.Finishing.{keypair_required, finalize_deployment, reclaim_fee_payer_sol}

pub record DeployMutationInput : Type 0 where
  pub is_upgrade : Bool
  pub program_address : Option String
  pub program_keypair_bytes : Option (List ℕ)
  pub resume_from : Option ℕ

pub record DeployResult : Type 0 where
  pub program_address : String
  pub signature : String

-- `feePayerRef.current = feePayerKp`
unfoldable pub store_fee_payer : Signer → Action Unit
store_fee_payer fee_payer w = (
  ok tt,
  record w {
    refs = record {
      last_plan = w.refs.last_plan;
      buffer_signer = w.refs.buffer_signer;
      fee_payer = some fee_payer;
    };
  },
)

-- `!isUpgrade && (!programAddress || !programKeypairBytes)`
abbrev pub lacks_keypair : DeployMutationInput → Bool
lacks_keypair input =
    not input.is_upgrade
    && (not (is_some (when_given input.program_address))
        || not (is_some input.program_keypair_bytes))

abbrev finalizing_message : Bool → String
finalizing_message is_upgrade =
    if is_upgrade
    then "Finalizing upgrade (approve in wallet)..."
    else "Finalizing deployment (approve in wallet)..."

module _ (net : Network) where
  abbrev pub fee_payer_of : Option Signer → Action Signer
  unfolding store_fee_payer
  fee_payer_of (some fee_payer) = pure fee_payer
  fee_payer_of none = do
    fee_payer ← ask key_generated net.generate_signer
    _ ← store_fee_payer fee_payer
    pure fee_payer

  unfoldable pub get_fee_payer : Action Signer
  unfolding store_fee_payer
  get_fee_payer w = fee_payer_of w.refs.fee_payer w

  module _ (signer : Signer) (input : DeployMutationInput) where
    -- what stands in the `try` block
    unfoldable pub hand_over : (plan : DeployPlan) (buffer fee_payer : Signer) → Action DeployResult
    unfolding clear_recovery_refs set_progress
    hand_over plan buffer fee_payer = do
      _ ← transfer_buffer_authority net signer buffer fee_payer
      _ ←
          set_progress plan.total_chunks (finalizing_message input.is_upgrade) phase_deploying
            plan.total_chunks
      signature ←
          finalize_deployment net signer buffer plan input.is_upgrade input.program_keypair_bytes
      _ ← reclaim_fee_payer_sol net fee_payer signer
      _ ← set_progress plan.total_chunks "Deployment complete!" phase_done plan.total_chunks
      _ ← clear_recovery_refs
      pure (record { program_address = plan.program_address; signature = signature })

    -- what stands in the `catch` block
    abbrev pub reclaim_and_rethrow : Signer → String → Action DeployResult
    reclaim_and_rethrow fee_payer message = do
      _ ← reclaim_fee_payer_sol net fee_payer signer
      raise message

    unfoldable pub upload_and_finish :
        (plan : DeployPlan) (buffer fee_payer : Signer) → Action DeployResult
    unfolding hand_over set_progress
    upload_and_finish plan buffer fee_payer = do
      let start_chunk = or_else input.resume_from 0
      _ ← fund_buffer_and_fee_payer net signer plan buffer fee_payer plan.total_chunks start_chunk
      _ ← write_chunks net plan buffer fee_payer plan.total_chunks start_chunk
      _ ←
          set_progress plan.total_chunks "Transferring buffer authority..." phase_deploying
            plan.total_chunks
      try_catch (hand_over plan buffer fee_payer) (reclaim_and_rethrow fee_payer)

    unfoldable pub deploy_connected : Action DeployResult
    unfolding fetch_or_resume_plan store_plan get_fee_payer upload_and_finish set_progress
    deploy_connected = do
      _ ← if lacks_keypair input then raise keypair_required else pure tt
      _ ← set_progress 0 "Fetching program data..." phase_preparing 0
      planned ← fetch_or_resume_plan net input.program_address input.resume_from
      _ ← store_plan planned.1 planned.0
      fee_payer ← get_fee_payer
      upload_and_finish planned.1 planned.0 fee_payer

  -- the mutation's function
  unfoldable pub deploy : Option Signer → DeployMutationInput → Action DeployResult
  unfolding deploy_connected
  deploy none input = raise wallet_not_connected
  deploy (some signer) input = deploy_connected signer input
