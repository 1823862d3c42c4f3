-- ===== src/Setup.antt =====
-- webapp/src/hooks/use-setup-wizard.ts: the steps that set up a local network. The endpoints of
-- the API under `api.setup` are parameters; the status is answered by the number of the request.
pub mod Laws
use multi_delegator.Base.{
  ℕ, zero, suc, ◌+◌, String, Bool, true, false, Option, none, some, List, [], ◌∷◌, map, str_eq,
  if◌then◌else◌, find_if,
}
use multi_delegator.Base.Result.{Result, ok, throw}

pub data StepStatus : Type 0 where
  step_done step_error step_pending step_running : StepStatus

pub record SetupStep : Type 0 where
  pub id : String
  pub label : String
  pub message : Option String
  pub status : StepStatus

pub record SetupResult : Type 0 where
  pub program_id : String
  pub usdc_mint : String

-- the state of the hook
pub record Wizard : Type 0 where
  pub steps : List SetupStep
  pub is_complete : Bool
  pub result : Option SetupResult
  pub abort_ref : Bool

abbrev pending : String → String → SetupStep
pending id label = record { id = id; label = label; message = none; status = step_pending }

abbrev pub use_localnet_setup : Wizard
use_localnet_setup = record {
  steps =
      pending "start-validator" "Start Surfpool validator"
      ∷ pending "wait-validator" "Wait for validator"
      ∷ pending "wait-program" "Wait for program deployment"
      ∷ pending "create-usdc" "Create mock USDC"
      ∷ [];
  is_complete = false;
  result = none;
  abort_ref = false;
}

abbrev pub use_devnet_setup : Wizard
use_devnet_setup = record {
  steps =
      pending "connect-wallet" "Connect wallet"
      ∷ pending "deploy-program" "Deploy program"
      ∷ pending "create-usdc" "Create mock USDC"
      ∷ pending "mint-usdc" "Mint USDC to wallet"
      ∷ pending "save-config" "Save configuration"
      ∷ [];
  is_complete = false;
  result = none;
  abort_ref = false;
}

-- `prev.map(s => (s.id === id ? { ...s, ...update } : s))`, for an update of message and status
unfoldable pub update_step : String → String → StepStatus → Wizard → Wizard
update_step id message status w = record w {
  steps =
      map (λ s. if str_eq s.id id then record s { message = some message; status = status } else s)
        w.steps;
}

unfoldable pub mark_step_done : String → String → Wizard → Wizard
unfolding update_step
mark_step_done id message = update_step id message step_done

unfoldable pub mark_step_error : String → String → Wizard → Wizard
unfolding update_step
mark_step_error id message = update_step id message step_error

unfoldable pub mark_step_running : String → String → Wizard → Wizard
unfolding update_step
mark_step_running id message = update_step id message step_running

unfoldable pub complete_setup : String → String → Wizard → Wizard
complete_setup program_id usdc_mint w = record w {
  result = some (record { program_id = program_id; usdc_mint = usdc_mint });
  is_complete = true;
}

abbrev pub is_running : StepStatus → Bool
is_running step_running = true
is_running _ = false

-- what the `catch` of `run` does with the running step, if there is one
abbrev fail_step : String → Option SetupStep → Wizard → Wizard
unfolding update_step
fail_step message none w = w
fail_step message (some running) w = update_step running.id message step_error w

unfoldable pub fail_setup : String → Wizard → Wizard
unfolding update_step
fail_setup message w = fail_step message (find_if (λ s. is_running s.status) w.steps) w

-- a round of `poll`, from what `check` did and what the later rounds do
abbrev pub after_round :
    {S : Type 0} → Result Bool × S → Result (Unit {0}) × S → Result (Unit {0}) × S
after_round (throw message, s) rest = (throw message, s)
after_round (ok true, s) rest = (ok tt, s)
after_round (ok false, s) rest = rest

module _ {S : Type 0} (aborted : Bool) (check : S → Result Bool × S) where
  -- `poll`, with the state of what `check` closes over; the fuel is `maxAttempts`
  unfoldable pub poll_status : ℕ → S → Result (Unit {0}) × S
  poll_status zero s = (throw "Timed out", s)
  poll_status (suc n) s =
      let rest = poll_status n (check s).1 in
      if aborted then (throw "Setup cancelled", s) else after_round (check s) rest

pub record ValidatorStatus : Type 0 where
  pub validator_running : Bool
  pub program_deployed : Bool
  pub program_address : String

pub record MockUsdc : Type 0 where
  pub mint : String
  pub already_existed : Bool

pub record SetupApi : Type 0 where
  pub start_validator : Result (Unit {0})
  pub validator_status : ℕ → Result ValidatorStatus
  pub create_mock_usdc : Result MockUsdc

-- the number of status requests, and the variable `programAddress` of `run`
pub record Polled : Type 0 where
  pub asked : ℕ
  pub address : String

abbrev pub max_attempts : ℕ
max_attempts = 60

abbrev running_answer : Result ValidatorStatus → Polled → Result Bool × Polled
running_answer (throw message) p = (throw message, p)
running_answer (ok s) p = (ok s.validator_running, p)

abbrev pub deployed_answer : Result ValidatorStatus → Polled → Result Bool × Polled
deployed_answer (throw message) p = (throw message, p)
deployed_answer (ok s) p = (
  ok s.program_deployed,
  if s.program_deployed then record p { address = s.program_address } else p,
)

-- `run` from the answer of each request on, to its end
unfoldable pub usdc_created : Result MockUsdc → String → Wizard → Wizard
unfolding update_step complete_setup fail_setup
usdc_created (throw message) address w = fail_setup message w
usdc_created (ok usdc) address w = complete_setup address usdc.mint (
    update_step "create-usdc"
      (if usdc.already_existed then "USDC already exists" else "USDC created") step_done w)

module _ (api : SetupApi) where
  abbrev pub check_running : Polled → Result Bool × Polled
  check_running p = running_answer (api.validator_status p.asked) (record p { asked = p.asked + 1 })

  abbrev pub check_deployed : Polled → Result Bool × Polled
  check_deployed p =
      deployed_answer (api.validator_status p.asked) (record p { asked = p.asked + 1 })

  unfoldable pub program_polled : Result (Unit {0}) × Polled → Wizard → Wizard
  unfolding update_step fail_setup usdc_created
  program_polled (throw message, p) w = fail_setup message w
  program_polled (ok tt, p) w = usdc_created api.create_mock_usdc p.address (
      update_step "create-usdc" "Creating mock USDC..." step_running
        (update_step "wait-program" "Program deployed" step_done w))

  unfoldable pub validator_polled : Result (Unit {0}) × Polled → Wizard → Wizard
  unfolding update_step fail_setup program_polled poll_status
  validator_polled (throw message, p) w = fail_setup message w
  validator_polled (ok tt, p) w =
      program_polled
        (poll_status w.abort_ref check_deployed max_attempts (record p { address = "" }))
        (update_step "wait-program" "Waiting for program..." step_running
          (update_step "wait-validator" "Validator ready" step_done w))

  unfoldable pub validator_started : Result (Unit {0}) → Wizard → Wizard
  unfolding update_step fail_setup validator_polled poll_status
  validator_started (throw message) w = fail_setup message w
  validator_started (ok tt) w =
      validator_polled
        (poll_status w.abort_ref check_running max_attempts (record { asked = 0; address = "" }))
        (update_step "wait-validator" "Waiting for RPC..." step_running
          (update_step "start-validator" "Surfpool started" step_done w))

  unfoldable pub run : Wizard → Wizard
  unfolding update_step validator_started
  run w = validator_started api.start_validator (
      update_step "start-validator" "Starting surfpool..." step_running
        (record w { abort_ref = false }))
