-- ===== src/Deploy/Recovery.antt =====
-- webapp/src/hooks/use-program-deploy.ts: what is left in the recovery refs when a deployment fails.
use multi_delegator.Base.{String, ◌≡◌, ◌∙◌}
use multi_delegator.Base.Result.{Result, ok, throw}
use multi_delegator.Client.Types.{Signer}
use multi_delegator.Deploy.Action.{
  Action, pure, ◌>>=◌, go_on, or_handle, Network, RecoveryRefs, World, try_catch,
  clear_recovery_refs,
}
use multi_delegator.Deploy.Keeping.{Keeps, >>=-Keeps, raise-Keeps}
use multi_delegator.Deploy.Run.{DeployMutationInput, hand_over, upload_and_finish}
use multi_delegator.Loader.Plan.{DeployPlan}
use multi_delegator.Deploy.Refs.{
  refs_view, set_progress-Keeps, fund_buffer_and_fee_payer-Keeps, write_chunks-Keeps,
  transfer_buffer_authority-Keeps, finalize_deployment-Keeps, reclaim_fee_payer_sol-Keeps,
}

abbrev pub OnThrow : {A : Type 0} → (World → Type 0) → Result A × World → Type 0
OnThrow P (throw message, w) = P w
OnThrow P (ok a, w) = Unit

-- Where the refs hold this at the start, they hold it when the action throws.
pub record Guards (held : RecoveryRefs) {A : Type 0} (act : Action A) : Type 0 where
  pub guarded : (w : World) → w.refs ≡ held → OnThrow (λ v. v.refs ≡ held) (act w)

module _ {held : RecoveryRefs} {A : Type 0} where
  OnThrow-kept :
      (r : Result A × World) (refs : RecoveryRefs)
      → refs_view r.1 ≡ refs
      → refs ≡ held
      → OnThrow (λ v. v.refs ≡ held) r
  unfolding refs_view
  OnThrow-kept (throw message, w) refs same h = same ∙ h
  OnThrow-kept (ok a, w) refs same h = tt

  Keeps-Guards : (act : Action A) → Keeps refs_view act → Guards held act
  unfolding refs_view
  Keeps-Guards act h = record { guarded = λ w there. OnThrow-kept (act w) w.refs (h.kept w) there }

  go_on-Guards :
      {B : Type 0} (r : Result A × World) (next : A → Action B)
      → r.1.refs ≡ held
      → ((a : A) → Guards held (next a))
      → OnThrow (λ v. v.refs ≡ held) (go_on r next)
  go_on-Guards (throw message, w) next there h = there
  go_on-Guards (ok a, w) next there h = (h a).guarded w there

  >>=-Guards :
      {B : Type 0} {act : Action A} {next : A → Action B}
      → Keeps refs_view act
      → ((a : A) → Guards held (next a))
      → Guards held (act >>= next)
  unfolding ◌>>=◌ refs_view
  >>=-Guards {act = act} {next = next} first rest = record {
    guarded = λ w there. go_on-Guards (act w) next (first.kept w ∙ there) rest;
  }

  or_handle-Guards :
      (r : Result A × World) (handler : String → Action A)
      → OnThrow (λ v. v.refs ≡ held) r
      → ((message : String) → Guards held (handler message))
      → OnThrow (λ v. v.refs ≡ held) (or_handle r handler)
  or_handle-Guards (ok a, w) handler there h = tt
  or_handle-Guards (throw message, w) handler there h = (h message).guarded w there

  try_catch-Guards :
      {act : Action A} {handler : String → Action A}
      → Guards held act
      → ((message : String) → Guards held (handler message))
      → Guards held (try_catch act handler)
  unfolding try_catch
  try_catch-Guards {act = act} {handler = handler} first rest = record {
    guarded = λ w there. or_handle-Guards (act w) handler (first.guarded w there) rest;
  }

  clear-Guards : (a : A) → Guards held (clear_recovery_refs >>= λ _. pure a)
  unfolding clear_recovery_refs ◌>>=◌ pure
  clear-Guards a = record { guarded = λ w there. tt }

module _ (net : Network) (signer : Signer) (input : DeployMutationInput) {held : RecoveryRefs} where
  hand_over-Guards :
      (plan : DeployPlan) (buffer fee_payer : Signer)
      → Guards held (hand_over net signer input plan buffer fee_payer)
  unfolding hand_over
  hand_over-Guards plan buffer fee_payer =
      >>=-Guards (transfer_buffer_authority-Keeps net signer buffer fee_payer) λ _.
        >>=-Guards (set_progress-Keeps _ _ _ _) λ _.
          >>=-Guards (finalize_deployment-Keeps net signer buffer plan _ _) λ signature.
            >>=-Guards (reclaim_fee_payer_sol-Keeps net fee_payer signer)
              λ _. >>=-Guards (set_progress-Keeps _ _ _ _) λ _. clear-Guards _

  pub upload_and_finish-Guards :
      (plan : DeployPlan) (buffer fee_payer : Signer)
      → Guards held (upload_and_finish net signer input plan buffer fee_payer)
  unfolding upload_and_finish
  upload_and_finish-Guards plan buffer fee_payer =
      >>=-Guards (fund_buffer_and_fee_payer-Keeps net signer plan buffer fee_payer _ _) λ _.
        >>=-Guards (write_chunks-Keeps net plan buffer fee_payer _ _) λ _.
          >>=-Guards (set_progress-Keeps _ _ _ _) λ _.
            try_catch-Guards (hand_over-Guards plan buffer fee_payer) λ message. Keeps-Guards _ (
              >>=-Keeps (reclaim_fee_payer_sol-Keeps net fee_payer signer) λ _. raise-Keeps message)
