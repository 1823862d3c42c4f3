-- ===== src/Mutations/Plans.antt =====
-- webapp/src/hooks/use-subscriptions-mutations.ts: the instructions that the mutations on plans and
-- subscriptions send.
use multi_delegator.Base.{String, none, some, List, [], ◌∷◌}
use multi_delegator.Base.Result.{Result, ok, ◌>>=◌}
use multi_delegator.Client.Types.{Instruction, Signer, Quantity, PlanStatus, when_given}
use multi_delegator.Mutations.{
  Services, connected, HookState, configured, big_int_of, check_all_addresses, receiver_for,
  token_program_of,
}
use multi_delegator.Client.Plans.{
  create_plan_overlay, update_plan_overlay, delete_plan_overlay, subscribe_overlay,
  cancel_subscription_overlay, resume_subscription_overlay,
}
use multi_delegator.Client.Delegations.{revoke_subscription_overlay}

pub record CreatePlanParams : Type 0 where
  pub amount : Quantity
  pub destinations : List String
  pub end_ts : Quantity
  pub metadata_uri : String
  pub mint : String
  pub period_hours : Quantity
  pub plan_id : Quantity
  pub pullers : List String

pub record UpdatePlanParams : Type 0 where
  pub end_ts : Quantity
  pub expected_created_at : Quantity
  pub expected_end_ts : Quantity
  pub expected_metadata_uri : String
  pub expected_pullers : List String
  pub metadata_uri : String
  pub plan_pda : String
  pub pullers : List String
  pub status : PlanStatus

pub record SubscribeParams : Type 0 where
  pub expected_amount : Quantity
  pub expected_created_at : Quantity
  pub expected_period_hours : Quantity
  pub expected_init_id : Quantity
  pub merchant : String
  pub plan_id : Quantity
  pub token_mint : String

module _ (services : Services) (state : HookState) where
  open services use {kit, check_address}

  unfoldable pub create_plan_instructions : CreatePlanParams → Result (List Instruction)
  unfolding connected configured
  create_plan_instructions params = do
    signer ← connected state
    program ← configured state
    mint ← check_address params.mint
    token_program ← token_program_of services state mint
    destinations ← check_all_addresses check_address params.destinations
    end_ts ← big_int_of params.end_ts
    period_hours ← big_int_of params.period_hours
    pullers ← check_all_addresses check_address params.pullers
    ix ← create_plan_overlay kit (record {
      program_address = some program;
      amount = params.amount;
      destinations = destinations;
      end_ts = end_ts;
      metadata_uri = params.metadata_uri;
      mint = mint;
      owner = signer;
      payer = none;
      period_hours = period_hours;
      plan_id = params.plan_id;
      pullers = pullers;
      token_program = some token_program;
    })
    ok (ix ∷ [])

  unfoldable pub update_plan_instructions : UpdatePlanParams → Result (List Instruction)
  unfolding connected
  update_plan_instructions params = do
    signer ← connected state
    end_ts ← big_int_of params.end_ts
    expected_pullers ← check_all_addresses check_address params.expected_pullers
    plan_pda ← check_address params.plan_pda
    pullers ← check_all_addresses check_address params.pullers
    ix ← update_plan_overlay kit (record {
      program_address = when_given state.prog_id;
      end_ts = end_ts;
      expected_created_at = some params.expected_created_at;
      expected_end_ts = some params.expected_end_ts;
      expected_metadata_uri = some params.expected_metadata_uri;
      expected_pullers = some expected_pullers;
      metadata_uri = params.metadata_uri;
      owner = signer;
      plan_pda = plan_pda;
      pullers = pullers;
      status = params.status;
    })
    ok (ix ∷ [])

  unfoldable pub delete_plan_instructions : (plan_pda : String) → Result (List Instruction)
  unfolding connected
  delete_plan_instructions plan_pda = do
    signer ← connected state
    plan ← check_address plan_pda
    ix ←
        delete_plan_overlay kit
          (record { program_address = when_given state.prog_id; owner = signer; plan_pda = plan })
    ok (ix ∷ [])

  -- `getSubscribeOverlayInstructionAsync` with the terms that the subscriber saw
  abbrev pub subscribe_with : Signer → String → SubscribeParams → Result Instruction
  subscribe_with signer program params = do
    merchant ← check_address params.merchant
    mint ← check_address params.token_mint
    subscribe_overlay kit (record {
      program_address = some program;
      expected_amount = some params.expected_amount;
      expected_created_at = some params.expected_created_at;
      expected_period_hours = some params.expected_period_hours;
      expected_subscription_authority_init_id = some params.expected_init_id;
      merchant = merchant;
      payer = none;
      plan_id = params.plan_id;
      subscriber = signer;
      token_mint = mint;
    })

  unfoldable pub subscribe_instructions : SubscribeParams → Result (List Instruction)
  unfolding connected configured
  subscribe_instructions params = do
    signer ← connected state
    program ← configured state
    ix ← subscribe_with signer program params
    ok (ix ∷ [])

  unfoldable pub cancel_instructions :
      (plan_pda subscription_pda : String) → Result (List Instruction)
  unfolding connected configured
  cancel_instructions plan_pda subscription_pda = do
    signer ← connected state
    program ← configured state
    plan ← check_address plan_pda
    subscription ← check_address subscription_pda
    ix ← cancel_subscription_overlay kit (record {
      program_address = some program;
      plan_pda = plan;
      subscriber = signer;
      subscription_pda = some subscription;
    })
    ok (ix ∷ [])

  unfoldable pub resume_instructions :
      (expected_expires_at_ts : Quantity) (plan_pda subscription_pda token_mint : String)
      → Result (List Instruction)
  unfolding connected configured
  resume_instructions expected_expires_at_ts plan_pda subscription_pda token_mint = do
    signer ← connected state
    program ← configured state
    plan ← check_address plan_pda
    subscription ← check_address subscription_pda
    mint ← check_address token_mint
    ix ← resume_subscription_overlay kit (record {
      program_address = some program;
      expected_expires_at_ts = expected_expires_at_ts;
      plan_pda = plan;
      subscriber = signer;
      subscription_pda = some subscription;
      token_mint = mint;
    })
    ok (ix ∷ [])

  -- the abandoned subscription is revoked before the new one is made
  unfoldable pub resubscribe_instructions :
      (plan_pda subscription_pda : String) → SubscribeParams → Result (List Instruction)
  unfolding connected configured
  resubscribe_instructions plan_pda subscription_pda params = do
    signer ← connected state
    program ← configured state
    mint ← check_address params.token_mint
    authority ← kit.find_subscription_authority_pda mint signer.address (some program)
    plan ← check_address plan_pda
    subscription ← check_address subscription_pda
    ix ← subscribe_with signer program params
    ok (services.revoke_abandoned_subscription signer plan subscription authority program ∷ ix ∷ [])

  unfoldable pub revoke_instructions :
      (subscription_pda plan_pda payer : String) → Result (List Instruction)
  unfolding connected
  revoke_instructions subscription_pda plan_pda payer = do
    signer ← connected state
    receiver ← receiver_for check_address payer signer.address
    plan ← check_address plan_pda
    subscription ← check_address subscription_pda
    ix ← revoke_subscription_overlay kit (record {
      program_address = when_given state.prog_id;
      authority = signer;
      plan_pda = plan;
      receiver = receiver;
      subscription_pda = subscription;
    })
    ok (ix ∷ [])

  unfoldable pub cancel_and_revoke_instructions :
      (subscription_pda plan_pda payer : String) → Result (List Instruction)
  unfolding connected configured
  cancel_and_revoke_instructions subscription_pda plan_pda payer = do
    signer ← connected state
    program ← configured state
    receiver ← receiver_for check_address payer signer.address
    cancel_plan ← check_address plan_pda
    cancel_subscription ← check_address subscription_pda
    cancel ← cancel_subscription_overlay kit (record {
      program_address = some program;
      plan_pda = cancel_plan;
      subscriber = signer;
      subscription_pda = some cancel_subscription;
    })
    revoke_plan ← check_address plan_pda
    revoke_subscription ← check_address subscription_pda
    revoke ← revoke_subscription_overlay kit (record {
      program_address = some program;
      authority = signer;
      plan_pda = revoke_plan;
      receiver = receiver;
      subscription_pda = revoke_subscription;
    })
    ok (cancel ∷ revoke ∷ [])
