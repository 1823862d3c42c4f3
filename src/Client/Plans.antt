-- ===== src/Client/Plans.antt =====
-- clients/typescript/src/plugin.ts: the overlay builders for plans and subscriptions.

pub mod Laws
use multi_delegator.Base.{String, Option, some, List}
use multi_delegator.Base.Int.{pos}
use multi_delegator.Base.Result.{Result, ok, throw, ◌>>=◌, ◌>>◌}
use multi_delegator.Client.Types.{Instruction, Signer, Quantity, bigint}
use multi_delegator.Client.Inputs.{
  CreatePlanInput, UpdatePlanInput, DeletePlanInput, SubscribeInput, CancelSubscriptionInput,
  CancelSubscriptionNowInput, ResumeSubscriptionInput,
}
use multi_delegator.Client.Generated.{
  GeneratedClient, create_plan_call, update_plan_call, delete_plan_call, subscribe_call,
  cancel_subscription_call, cancel_subscription_now_call, resume_subscription_call,
}
use multi_delegator.Client.Overlay.{pda_config, append_payer, event_accounts}
use multi_delegator.Client.Validators.{
  assert_positive, assert_safe_u64, assert_metadata_uri, pad_plan_destinations, pad_plan_pullers,
}

abbrev pub missing_plan_snapshot : String
missing_plan_snapshot =
    "getUpdatePlanOverlayInstruction requires expectedCreatedAt, expectedEndTs, expectedPullers, and expectedMetadataUri. Use the plugin client `subscriptions.instructions.updatePlan(...)` to auto-fetch from the live plan."

abbrev pub missing_terms_snapshot : String
missing_terms_snapshot =
    "getSubscribeOverlayInstructionAsync requires expectedAmount, expectedPeriodHours, expectedCreatedAt, and expectedSubscriptionAuthorityInitId. Use the plugin client `subscriptions.instructions.subscribe(...)` to auto-fetch from the live plan and authority."

-- the live plan state that an update expects: `expectedCreatedAt`, `expectedEndTs`,
-- `expectedMetadataUri` and `expectedPullers`
pub record PlanSnapshot : Type 0 where
  pub created_at : Quantity
  pub end_ts : Quantity
  pub metadata_uri : String
  pub pullers : List String

abbrev pub plan_snapshot :
    Option Quantity → Option Quantity → Option String → Option (List String) → Result PlanSnapshot
plan_snapshot (some created_at) (some end_ts) (some metadata_uri) (some pullers) = ok (record {
  created_at = created_at;
  end_ts = end_ts;
  metadata_uri = metadata_uri;
  pullers = pullers;
})
plan_snapshot _ _ _ _ = throw missing_plan_snapshot

-- the terms and the authority that a subscriber consents to: `expectedAmount`,
-- `expectedCreatedAt`, `expectedPeriodHours` and `expectedSubscriptionAuthorityInitId`
pub record TermsSnapshot : Type 0 where
  pub amount : Quantity
  pub created_at : Quantity
  pub period_hours : Quantity
  pub init_id : Quantity

abbrev pub terms_snapshot :
    Option Quantity → Option Quantity → Option Quantity → Option Quantity → Result TermsSnapshot
terms_snapshot (some amount) (some created_at) (some period_hours) (some init_id) = ok (record {
  amount = amount;
  created_at = created_at;
  period_hours = period_hours;
  init_id = init_id;
})
terms_snapshot _ _ _ _ = throw missing_terms_snapshot

module _ (kit : GeneratedClient) where
  -- the two sequences of checks before anything is derived or built
  unfoldable pub check_create_plan : CreatePlanInput Signer → Result (List String × List String)
  check_create_plan input = do
    assert_positive input.amount "amount"
    assert_positive input.period_hours "periodHours"
    assert_safe_u64 input.plan_id "planId"
    assert_metadata_uri kit.utf8_length input.metadata_uri
    destinations ← pad_plan_destinations input.destinations
    pullers ← pad_plan_pullers input.pullers
    ok (destinations, pullers)

  unfoldable pub create_plan_overlay : CreatePlanInput Signer → Result Instruction
  create_plan_overlay input = do
    (destinations, pullers) ← check_create_plan input
    (plan_pda, _) ←
        kit.find_plan_pda input.owner.address input.plan_id (pda_config input.program_address)
    ix ←
        kit.get_instruction
          (create_plan_call input.owner
            (record {
              destinations = destinations;
              end_ts = input.end_ts;
              metadata_uri = input.metadata_uri;
              mint = input.mint;
              plan_id = input.plan_id;
              pullers = pullers;
              terms = record {
                amount = input.amount;
                created_at = bigint (pos 0);
                period_hours = input.period_hours;
              };
            })
            plan_pda input.mint input.token_program)
          (pda_config input.program_address)
    ok (append_payer ix input.payer)

  unfoldable pub update_plan_overlay : UpdatePlanInput Signer → Result Instruction
  update_plan_overlay input = do
    expected ←
        plan_snapshot input.expected_created_at input.expected_end_ts input.expected_metadata_uri
          input.expected_pullers
    assert_metadata_uri kit.utf8_length input.metadata_uri
    pullers ← pad_plan_pullers input.pullers
    expected_pullers ← pad_plan_pullers expected.pullers
    events ← event_accounts kit input.program_address
    kit.get_instruction
        (update_plan_call events input.owner input.plan_pda (record {
          end_ts = input.end_ts;
          expected_created_at = expected.created_at;
          expected_end_ts = expected.end_ts;
          expected_metadata_uri = expected.metadata_uri;
          expected_pullers = expected_pullers;
          metadata_uri = input.metadata_uri;
          pullers = pullers;
          status = input.status;
        }))
        (pda_config input.program_address)

  unfoldable pub delete_plan_overlay : DeletePlanInput Signer → Result Instruction
  delete_plan_overlay input =
      kit.get_instruction (delete_plan_call input.owner input.plan_pda)
        (pda_config input.program_address)

  unfoldable pub subscribe_overlay : SubscribeInput Signer → Result Instruction
  subscribe_overlay input = do
    expected ←
        terms_snapshot input.expected_amount input.expected_created_at input.expected_period_hours
          input.expected_subscription_authority_init_id
    assert_safe_u64 input.plan_id "planId"
    (plan_pda, plan_bump) ←
        kit.find_plan_pda input.merchant input.plan_id (pda_config input.program_address)
    authority ←
        kit.find_subscription_authority_pda input.token_mint input.subscriber.address
          (pda_config input.program_address)
    events ← event_accounts kit input.program_address
    ix ←
        kit.get_instruction
          (subscribe_call events input.merchant plan_pda
            (record {
              expected_amount = expected.amount;
              expected_created_at = expected.created_at;
              expected_mint = input.token_mint;
              expected_period_hours = expected.period_hours;
              expected_subscription_authority_init_id = expected.init_id;
              plan_bump = plan_bump;
              plan_id = input.plan_id;
            })
            input.subscriber authority)
          (pda_config input.program_address)
    ok (append_payer ix input.payer)

  unfoldable pub cancel_subscription_overlay : CancelSubscriptionInput Signer → Result Instruction
  cancel_subscription_overlay input = do
    events ← event_accounts kit input.program_address
    kit.get_instruction
        (cancel_subscription_call events input.plan_pda input.subscriber input.subscription_pda)
        (pda_config input.program_address)

  unfoldable pub cancel_subscription_now_overlay :
      CancelSubscriptionNowInput Signer → Result Instruction
  cancel_subscription_now_overlay input = do
    events ← event_accounts kit input.program_address
    kit.get_instruction
        (cancel_subscription_now_call events input.expected_current_period_start_ts input.merchant
          input.plan_pda input.subscriber input.subscription_pda)
        (pda_config input.program_address)

  unfoldable pub resume_subscription_overlay : ResumeSubscriptionInput Signer → Result Instruction
  resume_subscription_overlay input = do
    authority ←
        kit.find_subscription_authority_pda input.token_mint input.subscriber.address
          (pda_config input.program_address)
    events ← event_accounts kit input.program_address
    kit.get_instruction
        (resume_subscription_call events input.plan_pda input.expected_expires_at_ts
          input.subscriber authority input.subscription_pda)
        (pda_config input.program_address)
