-- ===== src/Deploy/Outcome.antt =====
-- webapp/src/hooks/use-program-deploy.ts: a deployment that is refused, and one that succeeds.
use multi_delegator.Base.{
  ℕ, String, ◌≡◌, refl, ◌≢◌, inl, inr, true, Option, none, some, arith, if◌then◌else◌, Bool-cases,
}
use multi_delegator.Base.Result.{Result, ok, throw}
use multi_delegator.Deploy.Finishing.{keypair_required}
use multi_delegator.Client.Types.{Signer}
use multi_delegator.Deploy.Action.{
  Action, pure, raise, ◌>>=◌, go_on, or_handle, Network, World, try_catch, wallet_not_connected,
  set_progress, no_refs, clear_recovery_refs, phase_done,
}
use mathlib.Core.Path.{subst}
use multi_delegator.Deploy.Run.{
  deploy, DeployMutationInput, DeployResult, lacks_keypair, hand_over, upload_and_finish,
  deploy_connected,
}
use multi_delegator.Loader.Plan.{DeployPlan}
use multi_delegator.Deploy.Funding.{has_recovery_state, close_first, fetch_or_resume_plan}

-- one ref that is set is recovery state
has_recovery_state-refs :
    (plan : Option DeployPlan) (buffer fee_payer : Option Signer)
    → record { last_plan = plan; buffer_signer = buffer; fee_payer = fee_payer } ≢ no_refs
    → has_recovery_state
        (record { last_plan = plan; buffer_signer = buffer; fee_payer = fee_payer })
      ≡ true
has_recovery_state-refs none none none some_set = absurd (some_set refl)
has_recovery_state-refs none none (some f) some_set = refl
has_recovery_state-refs none (some b) f some_set = ground arith
has_recovery_state-refs (some p) b f some_set = ground arith

-- why a deployment that may not start is refused
abbrev pub refusal : Option Signer → DeployMutationInput → String
refusal none input = wallet_not_connected
refusal (some signer) input = if lacks_keypair input then keypair_required else close_first

-- Without `resumeFrom`, a deployment that finds any of the three recovery refs set throws, before it
-- asks the network for anything, and leaves the refs as they were: whether a wallet is connected or
-- not, and with or without a keypair for a first deployment, each with its message.
pub deploy-refuses :
    (net : Network) (wallet : Option Signer) (input : DeployMutationInput) (w : World)
    → input.resume_from ≡ none
    → w.refs ≢ no_refs
    → let (answer, after) = deploy net wallet input w in
      (answer ≡ throw (refusal wallet input)) × (after.log ≡ w.log) × (after.refs ≡ w.refs)
unfolding deploy deploy_connected fetch_or_resume_plan ◌>>=◌ pure raise set_progress
deploy-refuses net none input w fresh some_set = (refl, refl, refl)
deploy-refuses net (some signer) input w fresh some_set =
    let state =
      has_recovery_state-refs w.refs.last_plan w.refs.buffer_signer w.refs.fee_payer some_set in
    elim (Bool-cases (lacks_keypair input)) [
      | inl lacking ↦ rw lacking (refl, refl, refl)
      | inr keypair ↦ rw (keypair, fresh, state) (refl, refl, refl)
    ]

abbrev pub OnReturn : {A : Type 0} → (A → World → Type 0) → Result A × World → Type 0
OnReturn Q (throw message, w) = Unit
OnReturn Q (ok a, w) = Q a w

record Yields {A : Type 0} (Q : A → World → Type 0) (act : Action A) : Type 0 where
  yields : (w : World) → OnReturn Q (act w)

module _ {A : Type 0} {Q : A → World → Type 0} where
  go_on-Yields :
      {B : Type 0} (r : Result B × World) (next : B → Action A)
      → ((b : B) → Yields Q (next b))
      → OnReturn Q (go_on r next)
  go_on-Yields (throw message, w) next h = tt
  go_on-Yields (ok b, w) next h = (h b).yields w

  >>=-Yields :
      {B : Type 0} (act : Action B) {next : B → Action A}
      → ((b : B) → Yields Q (next b))
      → Yields Q (act >>= next)
  unfolding ◌>>=◌
  >>=-Yields act {next = next} h = record { yields = λ w. go_on-Yields (act w) next h }

  or_handle-Yields :
      (r : Result A × World) (handler : String → Action A)
      → OnReturn Q r
      → ((message : String) → Yields Q (handler message))
      → OnReturn Q (or_handle r handler)
  or_handle-Yields (throw message, w) handler first h = (h message).yields w
  or_handle-Yields (ok a, w) handler first h = first

  try_catch-Yields :
      {act : Action A} {handler : String → Action A}
      → Yields Q act
      → ((message : String) → Yields Q (handler message))
      → Yields Q (try_catch act handler)
  unfolding try_catch
  try_catch-Yields {act = act} {handler = handler} first h = record {
    yields = λ w. or_handle-Yields (act w) handler (first.yields w) h;
  }

  raise-Yields : (message : String) → Yields Q (raise message)
  unfolding raise
  raise-Yields message = record { yields = λ w. tt }

-- the refs are empty and the progress is done
abbrev IsFinished : DeployResult → World → Type 0
IsFinished result w = (w.refs ≡ no_refs) × (w.progress.phase ≡ phase_done)

module _ (net : Network) (signer : Signer) (input : DeployMutationInput) where
  finish-Yields :
      (total : ℕ) (result : DeployResult)
      → Yields IsFinished (
          set_progress total "Deployment complete!" phase_done total >>= λ _.
          clear_recovery_refs >>= λ _. pure result)
  unfolding set_progress clear_recovery_refs pure ◌>>=◌
  finish-Yields total result = record { yields = λ w. (refl, refl) }

  upload_and_finish-Yields :
      (plan : DeployPlan) (buffer fee_payer : Signer)
      → Yields IsFinished (upload_and_finish net signer input plan buffer fee_payer)
  unfolding upload_and_finish hand_over
  upload_and_finish-Yields plan buffer fee_payer = >>=-Yields _ λ _. >>=-Yields _ λ _.
      >>=-Yields _ λ _.
        try_catch-Yields
          (>>=-Yields _
            λ _. >>=-Yields _ λ _. >>=-Yields _ λ _. >>=-Yields _ λ _. finish-Yields _ _)
          (λ message. >>=-Yields _ λ _. raise-Yields message)

deploy-Yields :
    (net : Network) (wallet : Option Signer) (input : DeployMutationInput)
    → Yields IsFinished (deploy net wallet input)
unfolding deploy deploy_connected
deploy-Yields net none input = raise-Yields wallet_not_connected
deploy-Yields net (some signer) input = >>=-Yields _ λ _. >>=-Yields _ λ _. >>=-Yields _ λ planned.
    >>=-Yields _ λ _.
      >>=-Yields _
        λ fee_payer. upload_and_finish-Yields net signer input planned.1 planned.0 fee_payer

-- A deployment that returns has cleared the recovery refs, and its progress says that it is done.
pub deploy-clears_recovery :
    (net : Network) (wallet : Option Signer) (input : DeployMutationInput) (w after : World)
    (result : DeployResult)
    → deploy net wallet input w ≡ (ok result, after)
    → (after.refs ≡ no_refs) × (after.progress.phase ≡ phase_done)
deploy-clears_recovery net wallet input w after result returned =
    subst (OnReturn IsFinished) returned ((deploy-Yields net wallet input).yields w)
