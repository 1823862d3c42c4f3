-- ===== src/Deploy/Refs.antt =====
-- webapp/src/hooks/use-program-deploy.ts: the steps of a deployment leave the recovery refs alone.
use multi_delegator.Base.{
  ℕ, zero, suc, String, refl, Bool, true, false, Option, none, some, List, ◌==◌,
}
use multi_delegator.Base.Result.{Result, ok}
use multi_delegator.Client.Types.{Signer, Instruction}
use multi_delegator.Deploy.Action.{
  Action, Event, ask, send, wait, DeployPhase, Transaction, Network, RecoveryRefs, World,
  set_progress, waited,
}
use multi_delegator.Deploy.Funding.{
  poll, send_with_blockhash, fund_new_buffer, top_up_fee_payer, fund_for_resume,
  fund_buffer_and_fee_payer,
}
use multi_delegator.Deploy.Keeping.{
  Keeps, if-Keeps, >>=-Keeps, try_catch-Keeps, pure-Keeps, raise-Keeps, lift-Keeps,
}
use multi_delegator.Loader.Plan.{DeployPlan}
use multi_delegator.Deploy.Writing.{
  write_attempts, write_chunk, write_loop, write_chunks, transfer_buffer_authority,
}
use multi_delegator.Deploy.Finishing.{
  keypair_required, final_instructions, pre_simulate, finalize_deployment, reclaim_fee_payer_sol,
  raise_on_error, program_signer,
}

unfoldable pub refs_view : World → RecoveryRefs
refs_view w = w.refs

ask-Keeps :
    {A : Type 0} (event : Event) (answer : List Event → Result A)
    → Keeps refs_view (ask event answer)
unfolding ask refs_view
ask-Keeps event answer = record { kept = λ w. refl }

send-Keeps : (net : Network) (tx : Transaction) → Keeps refs_view (send net tx)
unfolding send refs_view
send-Keeps net tx = record { kept = λ w. refl }

pub set_progress-Keeps :
    (current : ℕ) (message : String) (phase : DeployPhase) (total : ℕ)
    → Keeps refs_view (set_progress current message phase total)
unfolding set_progress refs_view
set_progress-Keeps current message phase total = record { kept = λ w. refl }

wait-Keeps : Keeps refs_view wait
unfolding wait
wait-Keeps = ask-Keeps waited (λ log. ok tt)

ruleset keeping = (
  >>=-Keeps, try_catch-Keeps, if-Keeps, pure-Keeps, raise-Keeps, lift-Keeps, ask-Keeps, send-Keeps,
  set_progress-Keeps, wait-Keeps,
)

poll-Keeps :
    (attempts : ℕ) {check : Action Bool} (message : String)
    → Keeps refs_view check
    → Keeps refs_view (poll attempts check message)
unfolding poll
poll-Keeps zero message h = pure-Keeps tt
poll-Keeps (suc left) message h =
    let again = poll-Keeps left message h in
    >>=-Keeps h λ found.
      if-Keeps found (pure-Keeps tt)
        (if-Keeps (left == 0) (raise-Keeps message) (>>=-Keeps wait-Keeps λ _. again))

module _ (net : Network) where
  module _ (signer : Signer) (plan : DeployPlan) (buffer fee_payer : Signer)
      (total_chunks : ℕ) where
    fund_new_buffer-Keeps :
        (budget : ℕ)
        → Keeps refs_view (fund_new_buffer net signer plan buffer fee_payer total_chunks budget)
    unfolding fund_new_buffer send_with_blockhash
    fund_new_buffer-Keeps budget = search (keeping, poll-Keeps) depth 20

    pub fund_buffer_and_fee_payer-Keeps :
        (start_chunk : ℕ)
        → Keeps refs_view
            (fund_buffer_and_fee_payer net signer plan buffer fee_payer total_chunks start_chunk)
    unfolding fund_buffer_and_fee_payer fund_for_resume top_up_fee_payer send_with_blockhash
    fund_buffer_and_fee_payer-Keeps start_chunk =
        search (keeping, poll-Keeps, fund_new_buffer-Keeps) depth 20

  write_attempts-Keeps :
      (attempts : ℕ) (fee_payer : Signer) (blockhash : String) (ix : Instruction)
      → Keeps refs_view (write_attempts net attempts fee_payer blockhash ix)
  unfolding write_attempts
  write_attempts-Keeps zero fee_payer blockhash ix = pure-Keeps blockhash
  write_attempts-Keeps (suc left) fee_payer blockhash ix =
      search (keeping, write_attempts-Keeps left) depth 20

  module _ (plan : DeployPlan) (buffer fee_payer : Signer) (total_chunks : ℕ) where
    write_loop-Keeps :
        (remaining done i : ℕ) (blockhash : String)
        → Keeps refs_view
            (write_loop net plan buffer fee_payer total_chunks remaining done i blockhash)
    unfolding write_loop write_chunk
    write_loop-Keeps zero done i blockhash = pure-Keeps tt
    write_loop-Keeps (suc remaining) done i blockhash =
        search (keeping, write_attempts-Keeps, write_loop-Keeps remaining) depth 20

    pub write_chunks-Keeps :
        (start_chunk : ℕ)
        → Keeps refs_view (write_chunks net plan buffer fee_payer total_chunks start_chunk)
    unfolding write_chunks
    write_chunks-Keeps start_chunk = search (keeping, write_loop-Keeps) depth 20

  pub transfer_buffer_authority-Keeps :
      (signer buffer fee_payer : Signer)
      → Keeps refs_view (transfer_buffer_authority net signer buffer fee_payer)
  unfolding transfer_buffer_authority
  transfer_buffer_authority-Keeps signer buffer fee_payer = search (keeping, poll-Keeps) depth 20

  program_signer-Keeps : (bytes : Option (List ℕ)) → Keeps refs_view (program_signer net bytes)
  program_signer-Keeps none = raise-Keeps keypair_required
  program_signer-Keeps (some bytes) = lift-Keeps (net.create_keypair_signer bytes)

  final_instructions-Keeps :
      (signer buffer : Signer) (plan : DeployPlan) (program_data_pda : String) (is_upgrade : Bool)
      (bytes : Option (List ℕ))
      → Keeps refs_view
          (final_instructions net signer buffer plan program_data_pda is_upgrade bytes)
  unfolding final_instructions
  final_instructions-Keeps signer buffer plan program_data_pda true bytes = pure-Keeps _
  final_instructions-Keeps signer buffer plan program_data_pda false bytes =
      >>=-Keeps (program_signer-Keeps bytes) λ candidate.
        >>=-Keeps (lift-Keeps _) λ program. >>=-Keeps (ask-Keeps _ _) λ program_rent. pure-Keeps _

  raise_on_error-Keeps : (err : Option String) → Keeps refs_view (raise_on_error err)
  raise_on_error-Keeps none = pure-Keeps tt
  raise_on_error-Keeps (some err) = raise-Keeps _

  pub finalize_deployment-Keeps :
      (signer buffer : Signer) (plan : DeployPlan) (is_upgrade : Bool) (bytes : Option (List ℕ))
      → Keeps refs_view (finalize_deployment net signer buffer plan is_upgrade bytes)
  unfolding finalize_deployment pre_simulate
  finalize_deployment-Keeps signer buffer plan is_upgrade bytes =
      search (keeping, final_instructions-Keeps, raise_on_error-Keeps) depth 20

  pub reclaim_fee_payer_sol-Keeps :
      (fee_payer signer : Signer) → Keeps refs_view (reclaim_fee_payer_sol net fee_payer signer)
  unfolding reclaim_fee_payer_sol
  reclaim_fee_payer_sol-Keeps fee_payer signer = search keeping depth 20
