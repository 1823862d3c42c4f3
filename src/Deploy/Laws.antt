-- ===== src/Deploy/Laws.antt =====
-- webapp/src/hooks/use-program-deploy.ts: what holds of the `deploy` mutation as a whole.
use multi_delegator.Base.{
  ℕ, String, ◌≡◌, refl, ap, ◌∙◌, ◌⊎◌, inl, inr, Option, none, some, List, [], ◌∷◌, ◌++◌, append-nil,
}
use multi_delegator.Base.Result.{Result, ok, throw}
use multi_delegator.Client.Types.{Signer}
use multi_delegator.Deploy.Action.{
  Action, Event, raise, ask, ◌>>=◌, go_on, DeployPhase, Transaction, Network, RecoveryRefs, World,
  set_progress, pure, lift, wallet_not_connected, key_generated,
}
use multi_delegator.Deploy.Keeping.{
  Keeps, if-Keeps, sends, sends_of, sends-append, >>=-Keeps, pure-Keeps, raise-Keeps, lift-Keeps,
}
use multi_delegator.Deploy.Recovery.{OnThrow, upload_and_finish-Guards}
use mathlib.Core.Path.{subst}
use multi_delegator.Deploy.Funding.{
  resumed, has_recovery_state, store_plan, close_first, fetch_new_plan, plan_or_fetch,
  fetch_or_resume_plan,
}
use multi_delegator.Deploy.Run.{
  DeployMutationInput, fee_payer_of, upload_and_finish, store_fee_payer, lacks_keypair,
  get_fee_payer, deploy_connected, deploy, DeployResult,
}
use multi_delegator.Loader.Plan.{DeployPlan}
use multi_delegator.Deploy.Finishing.{keypair_required}

sends_view : World → List (Transaction × Result String)
sends_view w = sends w.log

abbrev pub held_refs : DeployPlan → (buffer fee_payer : Signer) → RecoveryRefs
held_refs plan buffer fee_payer = record {
  last_plan = some plan;
  buffer_signer = some buffer;
  fee_payer = some fee_payer;
}

-- the deployment ended in an upload that started when nothing more was sent than before, and the
-- refs hold the plan, the buffer and the fee payer of that upload
pub record IsKept (net : Network) (wallet : Option Signer) (input : DeployMutationInput)
    (before : List (Transaction × Result String)) (w : World) : Type 0 where
  pub signer : Signer
  pub plan : DeployPlan
  pub buffer : Signer
  pub fee_payer : Signer
  pub during : World
  pub connected : wallet ≡ some signer
  pub unsent : sends during.log ≡ before
  pub uploaded : (upload_and_finish net signer input plan buffer fee_payer during).1 ≡ w
  pub held : w.refs ≡ held_refs plan buffer fee_payer

-- nothing more was sent than before, or what was being uploaded is kept
abbrev pub Recoverable :
    Network
    → Option Signer
    → DeployMutationInput
    → List (Transaction × Result String)
    → World
    → Type 0
Recoverable net wallet input before w = (sends w.log ≡ before) ⊎ IsKept net wallet input before w

module _ (net : Network) (wallet : Option Signer) (input : DeployMutationInput) where
  -- the same, whenever the action throws after nothing was sent
  record Early {A : Type 0} (act : Action A) : Type 0 where
    safe : (w : World) → OnThrow (Recoverable net wallet input (sends w.log)) (act w)

  go_on-Early :
      {A B : Type 0} (r : Result A × World) (next : A → Action B)
      (before : List (Transaction × Result String))
      → sends_view r.1 ≡ before
      → ((a : A) → Early (next a))
      → OnThrow (Recoverable net wallet input before) (go_on r next)
  unfolding sends_view
  go_on-Early (throw message, w) next before same h = inl same
  go_on-Early (ok a, w) next before same h =
      subst (λ s. OnThrow (Recoverable net wallet input s) (next a w)) same ((h a).safe w)

  >>=-Early :
      {A B : Type 0} {act : Action A} {next : A → Action B}
      → Keeps sends_view act
      → ((a : A) → Early (next a))
      → Early (act >>= next)
  unfolding ◌>>=◌ sends_view
  >>=-Early {act = act} {next = next} first rest = record {
    safe = λ w. go_on-Early (act w) next (sends w.log) (first.kept w) rest;
  }

  raise-Early : {A : Type 0} (message : String) → Early (raise {A = A} message)
  unfolding raise
  raise-Early message = record { safe = λ w. inl refl }

ask-Keeps_sends :
    {A : Type 0} (event : Event) (answer : List Event → Result A)
    → sends_of event ≡ []
    → Keeps sends_view (ask event answer)
unfolding ask sends_view
ask-Keeps_sends event answer silent = record {
  kept = λ w.
      sends-append w.log (event ∷ [])
      ∙ ap (λ t. sends w.log ++ (t ++ [])) silent
      ∙ append-nil (sends w.log);
}

store_plan-Keeps : (plan : DeployPlan) (buffer : Signer) → Keeps sends_view (store_plan plan buffer)
unfolding store_plan sends_view
store_plan-Keeps plan buffer = record { kept = λ w. refl }

set_progress-Keeps_sends :
    (current : ℕ) (message : String) (phase : DeployPhase) (total : ℕ)
    → Keeps sends_view (set_progress current message phase total)
unfolding set_progress sends_view
set_progress-Keeps_sends current message phase total = record { kept = λ w. refl }

module _ (net : Network) where
  fetch_new_plan-Keeps :
      (program_address : Option String) → Keeps sends_view (fetch_new_plan net program_address)
  unfolding fetch_new_plan
  fetch_new_plan-Keeps program_address =
      >>=-Keeps (ask-Keeps_sends _ _ refl) λ plan.
        >>=-Keeps (lift-Keeps _) λ buffer. >>=-Keeps (store_plan-Keeps _ _) λ _. pure-Keeps _

  plan_or_fetch-Keeps :
      (refs : RecoveryRefs) (program_address : Option String) (found : Option (Signer × DeployPlan))
      → Keeps sends_view (plan_or_fetch net refs program_address found)
  plan_or_fetch-Keeps refs program_address (some pair) = pure-Keeps pair
  plan_or_fetch-Keeps refs program_address none =
      if-Keeps (has_recovery_state refs) (raise-Keeps close_first)
        (fetch_new_plan-Keeps program_address)

  fetch_or_resume_plan-Keeps :
      (program_address : Option String) (resume_from : Option ℕ)
      → Keeps sends_view (fetch_or_resume_plan net program_address resume_from)
  unfolding fetch_or_resume_plan
  fetch_or_resume_plan-Keeps program_address resume_from = record {
    kept = λ w. (plan_or_fetch-Keeps w.refs program_address (resumed resume_from w.refs)).kept w;
  }

  module _ (signer : Signer) (input : DeployMutationInput) where
    upload-OnThrow :
        (before : List (Transaction × Result String)) (plan : DeployPlan)
        (buffer fee_payer : Signer) (w : World) (r : Result DeployResult × World)
        → upload_and_finish net signer input plan buffer fee_payer w ≡ r
        → sends w.log ≡ before
        → OnThrow (λ v. v.refs ≡ held_refs plan buffer fee_payer) r
        → OnThrow (Recoverable net (some signer) input before) r
    upload-OnThrow before plan buffer fee_payer w (ok result, v) e same there = tt
    upload-OnThrow before plan buffer fee_payer w (throw message, v) e same there = inr (record {
      signer = signer;
      plan = plan;
      buffer = buffer;
      fee_payer = fee_payer;
      during = w;
      connected = refl;
      unsent = same;
      uploaded = ap (λ p. p.1) e;
      held = there;
    })

    -- from refs that hold the plan, the buffer and the fee payer, a throw leaves them there
    upload_stage :
        (before : List (Transaction × Result String)) (plan : DeployPlan)
        (buffer fee_payer : Signer) (w : World)
        → sends w.log ≡ before
        → w.refs ≡ held_refs plan buffer fee_payer
        → OnThrow
            (Recoverable net (some signer) input before)
            (upload_and_finish net signer input plan buffer fee_payer w)
    upload_stage before plan buffer fee_payer w same there =
        upload-OnThrow before plan buffer fee_payer w _ refl same
          ((upload_and_finish-Guards net signer input plan buffer fee_payer).guarded w there)

    new_fee_payer_stage :
        (before : List (Transaction × Result String)) (plan : DeployPlan) (buffer : Signer)
        (made : Result Signer × World)
        → sends made.1.log ≡ before
        → made.1.refs.last_plan ≡ some plan
        → made.1.refs.buffer_signer ≡ some buffer
        → OnThrow (Recoverable net (some signer) input before) (
            go_on
              (go_on made (λ fee_payer. store_fee_payer fee_payer >>= λ _. pure fee_payer))
              (upload_and_finish net signer input plan buffer))
    unfolding ◌>>=◌ store_fee_payer pure
    new_fee_payer_stage before plan buffer (throw message, w) same has_plan has_buffer = inl same
    new_fee_payer_stage before plan buffer (ok fee_payer, w) same has_plan has_buffer =
        upload_stage before plan buffer fee_payer _ same (rw (has_plan, has_buffer) refl)

    fee_payer_stage :
        (plan : DeployPlan) (buffer : Signer) (held : Option Signer) (w : World)
        → w.refs.fee_payer ≡ held
        → w.refs.last_plan ≡ some plan
        → w.refs.buffer_signer ≡ some buffer
        → OnThrow
            (Recoverable net (some signer) input (sends w.log))
            ((fee_payer_of net held >>= upload_and_finish net signer input plan buffer) w)
    unfolding ◌>>=◌ pure ask lift store_fee_payer
    fee_payer_stage plan buffer none w stored has_plan has_buffer =
        new_fee_payer_stage (sends w.log) plan buffer _
          (sends-append w.log (key_generated ∷ []) ∙ append-nil (sends w.log)) has_plan has_buffer
    fee_payer_stage plan buffer (some fee_payer) w stored has_plan has_buffer =
        upload_stage (sends w.log) plan buffer fee_payer w refl cc

    planned_stage :
        (planned : Signer × DeployPlan)
        → Early net (some signer) input (
            store_plan planned.1 planned.0 >>= λ _. get_fee_payer net >>= λ fee_payer.
            upload_and_finish net signer input planned.1 planned.0 fee_payer)
    unfolding ◌>>=◌ store_plan get_fee_payer
    planned_stage (buffer, plan) = record {
      safe = λ w. fee_payer_stage plan buffer w.refs.fee_payer _ refl refl refl;
    }

    deploy_connected-Early : Early net (some signer) input (deploy_connected net signer input)
    unfolding deploy_connected
    deploy_connected-Early =
        >>=-Early net (some signer) input
          (if-Keeps (lacks_keypair input) (raise-Keeps keypair_required) (pure-Keeps tt))
          λ _. >>=-Early net (some signer) input (set_progress-Keeps_sends _ _ _ _) λ _.
            >>=-Early net (some signer) input
              (fetch_or_resume_plan-Keeps input.program_address input.resume_from) planned_stage

  deploy-Early :
      (wallet : Option Signer) (input : DeployMutationInput)
      → Early net wallet input (deploy net wallet input)
  unfolding deploy
  deploy-Early none input = raise-Early net none input wallet_not_connected
  deploy-Early (some signer) input = deploy_connected-Early signer input

  -- A deployment that throws has either sent no transaction at all, or ended in an upload (funding,
  -- writing, handing over) before which it sent none, and then the refs hold the very plan, buffer
  -- signer and fee payer that this upload was run with.
  pub deploy-keeps_recovery :
      (wallet : Option Signer) (input : DeployMutationInput) (w after : World) (message : String)
      → deploy net wallet input w ≡ (throw message, after)
      → (sends after.log ≡ sends w.log) ⊎ IsKept net wallet input (sends w.log) after
  deploy-keeps_recovery wallet input w after message thrown =
      subst (OnThrow (Recoverable net wallet input (sends w.log))) thrown
        ((deploy-Early wallet input).safe w)
