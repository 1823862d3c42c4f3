-- ===== src/Deploy/Funding.antt =====
-- webapp/src/hooks/use-program-deploy.ts: `fetchOrResumePlan`, `fundBufferAndFeePayer`, and the loops
-- that poll the network.
use multi_delegator.Base.{
  ℕ, zero, suc, ◌+◌, ◌-◌, ◌*◌, String, Bool, ◌||◌, Option, none, some, List, [], ◌∷◌, ltb, leb,
  ◌==◌, if◌then◌else◌, is_some,
}
use multi_delegator.Base.Result.{ok}
use multi_delegator.Js.Decimal.{template}
use multi_delegator.Loader.Browser.{
  build_transfer_ix, build_create_account_ix, build_initialize_buffer_ix,
}
use multi_delegator.Deploy.Action.{
  Action, pure, raise, lift, rent, balance, send, wait, ask, Network, RecoveryRefs, ◌>>=◌,
  set_progress, latest_blockhash, account_info, build_v0_tx, phase_funding, plan_prepared,
}
use multi_delegator.Loader.{bpf_loader_upgradeable}
use multi_delegator.Loader.Plan.{DeployPlan}
use multi_delegator.Client.Types.{Signer, Instruction}

abbrev both_kept : Option Signer → Option DeployPlan → Option (Signer × DeployPlan)
both_kept none plan = none
both_kept (some buffer) none = none
both_kept (some buffer) (some plan) = some (buffer, plan)

-- `if (resumeFrom !== undefined && lastPlanRef.current && bufferSignerRef.current)`
abbrev pub resumed : Option ℕ → RecoveryRefs → Option (Signer × DeployPlan)
resumed none refs = none
resumed (some start) refs = both_kept refs.buffer_signer refs.last_plan

-- `if (lastPlanRef.current || bufferSignerRef.current || feePayerRef.current)`
abbrev pub has_recovery_state : RecoveryRefs → Bool
has_recovery_state refs =
    is_some refs.last_plan || is_some refs.buffer_signer || is_some refs.fee_payer

unfoldable pub store_plan : DeployPlan → Signer → Action Unit
store_plan plan buffer w = (
  ok tt,
  record w {
    refs = record {
      last_plan = some plan;
      buffer_signer = some buffer;
      fee_payer = w.refs.fee_payer;
    };
  },
)

-- the end of a round: `again` is the rounds that are left
abbrev pub after_check : (left : ℕ) → Action Unit → String → Bool → Action Unit
after_check left again message found =
    if found then pure tt else if left == 0 then raise message else (wait >>= λ _. again)

-- Up to `attempts` checks, a second apart; the last one that fails throws.
unfoldable pub poll : (attempts : ℕ) → Action Bool → String → Action Unit
poll zero check message = pure tt
poll (suc left) check message = check >>= after_check left (poll left check message) message

abbrev pub buffer_not_confirmed : String
buffer_not_confirmed = "Buffer account not confirmed after 60s"

abbrev pub fee_payer_not_funded : String
fee_payer_not_funded = "Fee payer funding not confirmed after 30s"

abbrev pub close_first : String
close_first = "Close the failed buffer before starting a new deployment."

abbrev insufficient_sol : String → String → String
insufficient_sol needed available = template (
    "Insufficient SOL: need ~" ∷ needed ∷ " SOL for buffer rent + fees, but wallet has " ∷ available
    ∷ " SOL. " ∷ "Request devnet SOL from a faucet first." ∷ [])

-- `feePayerRent + BigInt(remainingChunks + 2) * 10_000n`. Past the last chunk the source may reach a
-- negative budget, below which no balance is; 0 is such a budget too.
unfoldable pub fee_budget : (fee_payer_rent total_chunks start_chunk : ℕ) → ℕ
fee_budget fee_payer_rent total_chunks start_chunk =
    fee_payer_rent + (total_chunks + 2) * 10000 - start_chunk * 10000

module _ (net : Network) where
  unfoldable pub fetch_new_plan : Option String → Action (Signer × DeployPlan)
  unfolding store_plan
  fetch_new_plan program_address = do
    plan ← ask plan_prepared (λ log. net.prepare_deploy log program_address)
    buffer ← lift (net.create_keypair_signer plan.buffer_keypair)
    _ ← store_plan plan buffer
    pure (buffer, plan)

  abbrev pub plan_or_fetch :
      RecoveryRefs → Option String → Option (Signer × DeployPlan) → Action (Signer × DeployPlan)
  plan_or_fetch refs program_address (some kept) = pure kept
  plan_or_fetch refs program_address none =
      if has_recovery_state refs then raise close_first else fetch_new_plan program_address

  unfoldable pub fetch_or_resume_plan : Option String → Option ℕ → Action (Signer × DeployPlan)
  unfolding fetch_new_plan
  fetch_or_resume_plan program_address resume_from w =
      plan_or_fetch w.refs program_address (resumed resume_from w.refs) w

  -- one transaction that the payer signs, with a fresh blockhash
  unfoldable pub send_with_blockhash : Signer → List Instruction → Action String
  send_with_blockhash payer instructions = do
    blockhash ← latest_blockhash net
    send net (build_v0_tx payer blockhash instructions)

  abbrev account_exists : String → Action Bool
  account_exists address = do account ← account_info net address; pure (is_some account)

  abbrev has_balance : String → ℕ → Action Bool
  has_balance address lamports = do value ← balance net address; pure (leb lamports value)

  module _ (signer : Signer) (plan : DeployPlan) (buffer fee_payer : Signer)
      (total_chunks : ℕ) where
    -- `startChunk === 0`
    unfoldable pub fund_new_buffer : (budget : ℕ) → Action Unit
    unfolding poll send_with_blockhash set_progress
    fund_new_buffer budget = do
      let buffer_size = plan.so_size + 45
      rent_lamports ← rent net buffer_size
      let total_needed = rent_lamports + budget + 10000
      wallet_balance ← balance net signer.address
      _ ←
          if ltb wallet_balance total_needed
          then raise (insufficient_sol (net.sol_text total_needed) (net.sol_text wallet_balance))
          else pure tt
      _ ←
          set_progress 0
            (template (
              "Funding accounts (~"
              ∷ net.sol_text total_needed
              ∷ " SOL, approve in wallet)..."
              ∷ []))
            phase_funding total_chunks
      _ ← send_with_blockhash signer (
          build_transfer_ix net.add_signers signer fee_payer.address budget
          ∷ build_create_account_ix net.codec net.add_signers signer buffer rent_lamports
              buffer_size bpf_loader_upgradeable
          ∷ build_initialize_buffer_ix net.add_signers buffer.address buffer.address
          ∷ [])
      _ ← set_progress 0 "Waiting for confirmation..." phase_funding total_chunks
      poll 60 (account_exists buffer.address) buffer_not_confirmed

    unfoldable pub top_up_fee_payer : (budget : ℕ) → Action Unit
    unfolding poll send_with_blockhash set_progress
    top_up_fee_payer budget = do
      _ ←
          set_progress 0 "Funding fee payer for resume (approve in wallet)..." phase_funding
            total_chunks
      _ ←
          send_with_blockhash signer
            (build_transfer_ix net.add_signers signer fee_payer.address budget ∷ [])
      poll 30 (has_balance fee_payer.address budget) fee_payer_not_funded

    -- resuming at a later chunk
    unfoldable pub fund_for_resume : (budget : ℕ) → Action Unit
    unfolding top_up_fee_payer
    fund_for_resume budget = do
      value ← balance net fee_payer.address
      if ltb value budget then top_up_fee_payer budget else pure tt

    unfoldable pub fund_buffer_and_fee_payer : (start_chunk : ℕ) → Action Unit
    unfolding fund_new_buffer fund_for_resume
    fund_buffer_and_fee_payer start_chunk = do
      fee_payer_rent ← rent net 0
      let budget = fee_budget fee_payer_rent total_chunks start_chunk
      if start_chunk == 0 then fund_new_buffer budget else fund_for_resume budget
