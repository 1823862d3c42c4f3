-- ===== src/Deploy/Finishing.antt =====
-- webapp/src/hooks/use-program-deploy.ts: `finalizeDeployment`, `reclaimFeePayerSol` and what the
-- `closeBuffer` mutation does.
use multi_delegator.Base.{
  ℕ, ◌-◌, ◌*◌, String, Bool, true, false, not, ◌&&◌, Option, none, some, List, [], ◌∷◌, str_eq, ltb,
  if◌then◌else◌, is_some,
}
use multi_delegator.Base.Result.{Result, ok, throw}
use multi_delegator.Js.Decimal.{template}
use text.Mathlib.Text.{starts_with}
use multi_delegator.Client.Types.{Instruction, Signer, when_given}
use multi_delegator.Loader.Browser.{
  build_upgrade_ix, build_create_account_ix, build_transfer_ix, build_deploy_ix,
  build_close_buffer_ix,
}
use multi_delegator.Deploy.Action.{
  Action, pure, raise, lift, balance, send, rent, simulate, Transaction, Network, RecoveryRefs,
  ◌>>=◌, try_catch, wallet_not_connected, clear_recovery_refs, build_v0_tx, latest_blockhash,
}
use multi_delegator.Loader.{bpf_loader_upgradeable, derive_program_data_address}
use multi_delegator.Loader.Plan.{DeployPlan}
use multi_delegator.Deploy.Writing.{get_buffer_authority}

abbrev pub keypair_required : String
keypair_required = "Program keypair required for initial deploy"

abbrev pub keypair_mismatch : String
keypair_mismatch = "Program keypair does not match deploy plan address"

abbrev pub no_recovery_state : String
no_recovery_state = "No deploy recovery state found"

abbrev pub simulation_failed : String
simulation_failed = "Simulation failed:"

-- the simulation's `err`, with its logs, as the text of the error
abbrev pub raise_on_error : Option String → Action Unit
raise_on_error none = pure tt
raise_on_error (some err) = raise (template ("Simulation failed: " ∷ err ∷ []))

abbrev rethrow_simulation : String → Action Unit
rethrow_simulation message =
    if starts_with message simulation_failed then raise message else pure tt

module _ (net : Network) where
  unfoldable pub upgrade_instructions :
      (signer buffer : Signer) (plan : DeployPlan) (program_data_pda : String) → List Instruction
  upgrade_instructions signer buffer plan program_data_pda =
      build_upgrade_ix net.add_signers program_data_pda plan.program_address buffer.address
        signer.address signer
      ∷ []

  unfoldable pub deploy_instructions :
      (signer buffer program : Signer) (plan : DeployPlan) (program_data_pda : String)
      (program_rent : ℕ)
      → List Instruction
  deploy_instructions signer buffer program plan program_data_pda program_rent =
      build_create_account_ix net.codec net.add_signers signer program program_rent 36
        bpf_loader_upgradeable
      ∷ build_deploy_ix net.add_signers signer program_data_pda program buffer.address signer
          (plan.so_size * 2)
      ∷ []

  abbrev checked_program : DeployPlan → Signer → Result Signer
  checked_program plan program =
      if str_eq program.address plan.program_address then ok program else throw keypair_mismatch

  abbrev pub program_signer : Option (List ℕ) → Action Signer
  program_signer none = raise keypair_required
  program_signer (some bytes) = lift (net.create_keypair_signer bytes)

  unfoldable pub final_instructions :
      (signer buffer : Signer) (plan : DeployPlan) (program_data_pda : String) (is_upgrade : Bool)
      → Option (List ℕ)
      → Action (List Instruction)
  unfolding upgrade_instructions deploy_instructions
  final_instructions signer buffer plan program_data_pda true keypair_bytes =
      pure (upgrade_instructions signer buffer plan program_data_pda)
  final_instructions signer buffer plan program_data_pda false keypair_bytes = do
    candidate ← program_signer keypair_bytes
    program ← lift (checked_program plan candidate)
    program_rent ← rent net 36
    pure (deploy_instructions signer buffer program plan program_data_pda program_rent)

  -- the simulation before the wallet is asked: only its own failure stops the deployment
  unfoldable pub pre_simulate : Transaction → Action Unit
  pre_simulate tx = try_catch (simulate net tx >>= raise_on_error) rethrow_simulation

  unfoldable pub finalize_deployment :
      (signer buffer : Signer) (plan : DeployPlan) (is_upgrade : Bool)
      → Option (List ℕ)
      → Action String
  unfolding final_instructions pre_simulate
  finalize_deployment signer buffer plan is_upgrade keypair_bytes = do
    blockhash ← latest_blockhash net
    program_data_pda ← lift (derive_program_data_address net.codec plan.program_address)
    instructions ← final_instructions signer buffer plan program_data_pda is_upgrade keypair_bytes
    let tx = build_v0_tx signer blockhash instructions
    _ ← pre_simulate tx
    send net tx

  abbrev drain : (fee_payer signer : Signer) (lamports : ℕ) → Action Unit
  drain fee_payer signer lamports = do
    blockhash ← latest_blockhash net
    _ ← send net (
        build_v0_tx fee_payer blockhash
          (build_transfer_ix net.add_signers fee_payer signer.address (lamports - 5000) ∷ []))
    pure tt

  abbrev drain_above_fee : (fee_payer signer : Signer) (lamports : ℕ) → Action Unit
  drain_above_fee fee_payer signer lamports =
      if ltb 5000 lamports then drain fee_payer signer lamports else pure tt

  unfoldable pub reclaim_fee_payer_sol : (fee_payer signer : Signer) → Action Unit
  reclaim_fee_payer_sol fee_payer signer =
      try_catch (balance net fee_payer.address >>= drain_above_fee fee_payer signer)
        (λ message. pure tt)

  abbrev pub reclaim_if_any : Option Signer → Signer → Action Unit
  unfolding reclaim_fee_payer_sol
  reclaim_if_any none signer = pure tt
  reclaim_if_any (some fee_payer) signer = reclaim_fee_payer_sol fee_payer signer

  -- the signer that closes the buffer, by the authority on the chain
  unfoldable pub closing_authority : (signer buffer : Signer) → String → Result Signer
  closing_authority signer buffer current =
      if str_eq current signer.address
      then ok signer
      else if str_eq buffer.address current
      then ok buffer
      else throw (template ("Cannot close buffer because its authority is " ∷ current ∷ []))

  -- a missing account, or an authority whose text is empty, leaves nothing to close
  abbrev pub close_owned : (signer buffer : Signer) → Option String → Action Unit
  unfolding closing_authority
  close_owned signer buffer none = pure tt
  close_owned signer buffer (some current) = do
    authority ← lift (closing_authority signer buffer current)
    blockhash ← latest_blockhash net
    _ ← send net (
        build_v0_tx signer blockhash
          (build_close_buffer_ix net.add_signers buffer.address signer.address authority ∷ []))
    pure tt

  abbrev pub close_if_any : Signer → Option Signer → Action Unit
  unfolding get_buffer_authority
  close_if_any signer none = pure tt
  close_if_any signer (some buffer) = do
    authority ← get_buffer_authority net buffer.address
    close_owned signer buffer (when_given authority)

  abbrev pub close_recovery : Signer → RecoveryRefs → Action Unit
  unfolding clear_recovery_refs
  close_recovery signer refs =
      if not (is_some refs.buffer_signer) && not (is_some refs.fee_payer)
      then raise no_recovery_state
      else do
        _ ← close_if_any signer refs.buffer_signer
        _ ← reclaim_if_any refs.fee_payer signer
        clear_recovery_refs

  -- `closeBuffer`
  unfoldable pub close_buffer : Option Signer → Action Unit
  unfolding reclaim_fee_payer_sol get_buffer_authority clear_recovery_refs closing_authority
  close_buffer none w = raise wallet_not_connected w
  close_buffer (some signer) w = close_recovery signer w.refs w
