-- ===== src/Setup/Laws.antt =====
-- webapp/src/hooks/use-setup-wizard.ts: how a run of the local setup ends.
use multi_delegator.Base.{
  ℕ, zero, suc, String, ◌≡◌, refl, ◌⊎◌, inl, inr, Bool, true, false, Option, none, some, List, [],
  ◌∷◌, map, arith,
}
use multi_delegator.Base.Result.{Result, ok, throw}
use multi_delegator.Setup.{
  check_running, StepStatus, SetupResult, Wizard, use_localnet_setup, update_step, complete_setup,
  fail_setup, after_round, poll_status, ValidatorStatus, MockUsdc, SetupApi, Polled, max_attempts,
  deployed_answer, usdc_created, check_deployed, program_polled, validator_polled,
  validator_started, run, step_done, step_error, step_pending, step_running,
}

abbrev pub statuses : Wizard → List StepStatus
statuses w = map (λ s. s.status) w.steps

-- the status requests answered that the program is deployed at the address
abbrev pub IsDeployedAt : SetupApi → String → Type 0
IsDeployedAt api address =
    (n : ℕ) × (s : ValidatorStatus) × (api.validator_status n ≡ ok s)
    × (s.program_deployed ≡ true)
    × (s.program_address ≡ address)

-- not begun
pub data AllPending : List StepStatus → Type 0 where
  all_pending : AllPending []
  one_pending : {ss : List StepStatus} → AllPending ss → AllPending (step_pending ∷ ss)

-- one step failed, those before it are done and those behind it were not begun
pub data Stopped : List StepStatus → Type 0 where
  stopped_here : {ss : List StepStatus} → AllPending ss → Stopped (step_error ∷ ss)
  stopped_after : {ss : List StepStatus} → Stopped ss → Stopped (step_done ∷ ss)

-- the wizard has completed with an address at which the API found the program, or has stopped
abbrev pub Settled : SetupApi → Wizard → Type 0
Settled api w =
    ((r : SetupResult) × (w.result ≡ some r)
      × (w.is_complete ≡ true)
      × (statuses w ≡ step_done ∷ step_done ∷ step_done ∷ step_done ∷ [])
      × IsDeployedAt api r.program_id)
    ⊎ ((w.result ≡ none) × (w.is_complete ≡ false) × Stopped (statuses w))

module _ {S : Type 0} (check : S → Result Bool × S) where
  abbrev Found : S → Type 0
  Found t = (u : S) × (check u ≡ (ok true, t))

  after_round-ok :
      (u t : S) (r : Result Bool × S) (rest : Result (Unit {0}) × S)
      → check u ≡ r
      → (rest ≡ (ok tt, t) → Found t)
      → after_round r rest ≡ (ok tt, t)
      → Found t
  after_round-ok u t (throw message, v) rest e later returned = cc
  after_round-ok u t (ok true, v) rest e later returned = (u, cc)
  after_round-ok u t (ok false, v) rest e later returned = later returned

  -- a poll that returns ends with a check that answered yes
  poll_status-ok : (n : ℕ) (s t : S) → poll_status false check n s ≡ (ok tt, t) → Found t
  unfolding poll_status
  poll_status-ok zero s t returned = cc
  poll_status-ok (suc n) s t returned =
      after_round-ok s t (check s) _ refl (poll_status-ok n (check s).1 t) returned

deployed_answer-ok :
    (api : SetupApi) (n : ℕ) (a : Result ValidatorStatus) (p q : Polled)
    → api.validator_status n ≡ a
    → deployed_answer a p ≡ (ok true, q)
    → IsDeployedAt api q.address
deployed_answer-ok api n (throw message) p q e found = cc
deployed_answer-ok api n (ok s) p q e found = (n, s, e, ground arith, ground arith)

module _ (api : SetupApi) where
  -- where the last poll returned, the address is that of a deployed program
  deployed_poll :
      (n : ℕ) (p q : Polled)
      → poll_status false (check_deployed api) n p ≡ (ok tt, q)
      → IsDeployedAt api q.address
  deployed_poll n p q returned =
      let found = poll_status-ok (check_deployed api) n p q returned in
      deployed_answer-ok api found.0.asked (api.validator_status found.0.asked) _ q refl found.1

  -- the four steps, with their statuses and messages
  abbrev wizard : (a b c d : StepStatus) (k l m n : Option String) → Wizard
  wizard a b c d k l m n = record {
    steps =
        record {
          id = "start-validator";
          label = "Start Surfpool validator";
          message = k;
          status = a;
        }
        ∷ record { id = "wait-validator"; label = "Wait for validator"; message = l; status = b }
        ∷ record {
          id = "wait-program";
          label = "Wait for program deployment";
          message = m;
          status = c;
        }
        ∷ record { id = "create-usdc"; label = "Create mock USDC"; message = n; status = d }
        ∷ [];
    is_complete = false;
    result = none;
    abort_ref = false;
  }

  usdc_created-Settled :
      (r : Result MockUsdc) (address : String) (k l m n : Option String)
      → IsDeployedAt api address
      → Settled api
          (usdc_created r address (wizard step_done step_done step_done step_running k l m n))
  unfolding usdc_created update_step fail_setup complete_setup
  usdc_created-Settled (throw message) address k l m n at =
      inr (refl, refl, stopped_after (stopped_after (stopped_after (stopped_here all_pending))))
  usdc_created-Settled (ok usdc) address k l m n at = inl (_, refl, refl, refl, at)

  program_polled-Settled :
      (r : Result (Unit {0}) × Polled) (k l m n : Option String)
      → ((q : Polled) → r ≡ (ok tt, q) → IsDeployedAt api q.address)
      → Settled api
          (program_polled api r (wizard step_done step_done step_running step_pending k l m n))
  unfolding program_polled update_step fail_setup
  program_polled-Settled (throw message, p) k l m n at =
      inr (refl, refl, stopped_after (stopped_after (stopped_here (one_pending all_pending))))
  program_polled-Settled (ok tt, p) k l m n at =
      usdc_created-Settled api.create_mock_usdc p.address k l (some "Program deployed")
        (some "Creating mock USDC...") (at p refl)

  validator_polled-Settled :
      (r : Result (Unit {0}) × Polled) (k l m n : Option String)
      → Settled api
          (validator_polled api r (wizard step_done step_running step_pending step_pending k l m n))
  unfolding validator_polled update_step fail_setup
  validator_polled-Settled (throw message, p) k l m n =
      inr (refl, refl, stopped_after (stopped_here (one_pending (one_pending all_pending))))
  validator_polled-Settled (ok tt, p) k l m n =
      let last = record p { address = "" } in
      program_polled-Settled (poll_status false (check_deployed api) max_attempts last) k
        (some "Validator ready") (some "Waiting for program...") n (deployed_poll max_attempts last)

  validator_started-Settled :
      (r : Result (Unit {0})) (k l m n : Option String)
      → Settled api (
          validator_started api r
            (wizard step_running step_pending step_pending step_pending k l m n))
  unfolding validator_started update_step fail_setup
  validator_started-Settled (throw message) k l m n =
      inr (refl, refl, stopped_here (one_pending (one_pending (one_pending all_pending))))
  validator_started-Settled (ok tt) k l m n =
      validator_polled-Settled
        (poll_status false (check_running api) max_attempts (record { asked = 0; address = "" }))
        (some "Surfpool started") (some "Waiting for RPC...") m n

-- Whatever the API answers, a run of the local setup from its first state completes with all four
-- steps done and a result whose address is one at which the status requests found the program, or
-- stops without a result, with exactly one failed step, done steps before it and pending ones behind.
pub run-Settled : (api : SetupApi) → Settled api (run api use_localnet_setup)
unfolding run update_step
run-Settled api =
    validator_started-Settled api api.start_validator (some "Starting surfpool...") none none none
