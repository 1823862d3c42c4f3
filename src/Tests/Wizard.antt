-- ===== src/Tests/Wizard.antt =====
-- Runs of webapp/src/hooks/use-setup-wizard.ts at concrete answers of the API.
use multi_delegator.Base.{◌≡◌, refl, false, some, [], ◌∷◌, ltb}
use multi_delegator.Base.Result.{ok}
use multi_delegator.Setup.{
  SetupApi, use_localnet_setup, use_devnet_setup, mark_step_done, mark_step_error, step_done,
  step_error, step_pending, run,
}
use multi_delegator.Setup.Laws.{Settled, statuses, run-Settled}

-- the validator runs from the second request on, the program is there from the fourth on
abbrev quick_api : SetupApi
quick_api = record {
  start_validator = ok tt;
  validator_status = λ n. ok (record {
    validator_running = ltb 0 n;
    program_deployed = ltb 2 n;
    program_address = "program";
  });
  create_mock_usdc = ok (record { mint = "usdc"; already_existed = false });
}

-- the validator never comes up
abbrev dead_api : SetupApi
dead_api = record quick_api {
  validator_status = λ n.
      ok (record { validator_running = false; program_deployed = false; program_address = "" });
}

quick_run :
    (run quick_api use_localnet_setup).result
    ≡ some (record { program_id = "program"; usdc_mint = "usdc" })
unfolding run
quick_run = refl

dead_run :
    statuses (run dead_api use_localnet_setup)
    ≡ step_done ∷ step_error ∷ step_pending ∷ step_pending ∷ []
unfolding run
dead_run = refl

devnet_marks :
    statuses (
      mark_step_error "deploy-program" "rejected"
        (mark_step_done "connect-wallet" "Connected" use_devnet_setup))
    ≡ step_done ∷ step_error ∷ step_pending ∷ step_pending ∷ step_pending ∷ []
unfolding mark_step_error mark_step_done
devnet_marks = refl

run-Settled_example : Settled quick_api (run quick_api use_localnet_setup)
run-Settled_example = run-Settled quick_api
