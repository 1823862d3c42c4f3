-- ===== src/Client/Live.antt =====
-- clients/typescript/src/plugin.ts, `subscriptionsProgram`: the plugin's instructions that fetch
-- the live plan or authority for what the input leaves out.
pub mod Laws
use multi_delegator.Base.{String, ◌&&◌, Option, none, some, List, if◌then◌else◌, is_some, or_else}
use multi_delegator.Base.Result.{Result, ok, ◌>>=◌, ◌>>◌}
use multi_delegator.Client.Types.{Instruction, Signer, Quantity}
use multi_delegator.Client.Inputs.{
  CreateFixedDelegationInput, CreateRecurringDelegationInput, UpdatePlanInput, SubscribeInput,
}
use multi_delegator.Client.Generated.{GeneratedClient}
use multi_delegator.Client.Delegations.{
  create_fixed_delegation_overlay, required, create_recurring_delegation_overlay,
}
use multi_delegator.Client.Plans.{update_plan_overlay, subscribe_overlay}
use multi_delegator.Client.Plugin.{PluginClient, payer_of}
use multi_delegator.Client.Validators.{assert_safe_u64}
use multi_delegator.Client.Overlay.{pda_config}

abbrev pub no_delegator_authority : String
no_delegator_authority =
    "SubscriptionAuthority is not initialized for this delegator and token mint."

abbrev pub no_subscriber_authority : String
no_subscriber_authority =
    "SubscriptionAuthority is not initialized for this subscriber and token mint."

-- the parts of the live plan's terms that `subscribe` is to expect
pub record ExpectedTerms : Type 0 where
  pub amount : Option Quantity
  pub created_at : Option Quantity
  pub period_hours : Option Quantity

-- the live plan state that `updatePlan` is to expect
pub record ExpectedPlan : Type 0 where
  pub created_at : Option Quantity
  pub end_ts : Option Quantity
  pub metadata_uri : Option String
  pub pullers : Option (List String)

-- `x ?? live`, where the result is given
abbrev pub filled {ℓ} : {A : Type ℓ} → Option A → A → Option A
filled given live = some (or_else given live)

module _ (kit : GeneratedClient) (client : PluginClient) where
  -- the `initId` of the authority of a user and a mint: `fetchMaybeSubscriptionAuthority`, and an
  -- error where the account does not exist
  unfoldable pub live_init_id : String → String → Option String → String → Result Quantity
  live_init_id token_mint user program_address message = do
    authority ← kit.find_subscription_authority_pda token_mint user (pda_config program_address)
    account ← client.rpc.fetch_maybe_subscription_authority authority
    required account message

  -- `expected` if it is given, else the live one
  unfoldable pub resolve_init_id :
      String → String → Option String → Option Quantity → String → Result Quantity
  resolve_init_id token_mint user program_address (some expected) message = ok expected
  resolve_init_id token_mint user program_address none message =
      live_init_id token_mint user program_address message

  unfoldable pub create_fixed_delegation :
      CreateFixedDelegationInput (Option Signer) → Result Instruction
  create_fixed_delegation input = do
    let delegator = or_else input.delegator client.identity
    init_id ←
        resolve_init_id input.token_mint delegator.address input.program_address
          input.expected_subscription_authority_init_id no_delegator_authority
    create_fixed_delegation_overlay kit (record {
      program_address = input.program_address;
      amount = input.amount;
      delegatee = input.delegatee;
      delegator = delegator;
      expected_subscription_authority_init_id = some init_id;
      expiry_ts = input.expiry_ts;
      nonce = input.nonce;
      payer = payer_of kit client input.payer;
      token_mint = input.token_mint;
    })

  unfoldable pub create_recurring_delegation :
      CreateRecurringDelegationInput (Option Signer) → Result Instruction
  create_recurring_delegation input = do
    let delegator = or_else input.delegator client.identity
    init_id ←
        resolve_init_id input.token_mint delegator.address input.program_address
          input.expected_subscription_authority_init_id no_delegator_authority
    create_recurring_delegation_overlay kit (record {
      program_address = input.program_address;
      amount_per_period = input.amount_per_period;
      delegatee = input.delegatee;
      delegator = delegator;
      expected_subscription_authority_init_id = some init_id;
      expiry_ts = input.expiry_ts;
      nonce = input.nonce;
      payer = payer_of kit client input.payer;
      period_length_s = input.period_length_s;
      start_ts = input.start_ts;
      token_mint = input.token_mint;
    })

  -- the terms expected by `subscribe`: of the live plan, fetched where one of the three is missing
  unfoldable pub resolve_terms : SubscribeInput (Option Signer) → Result ExpectedTerms
  resolve_terms input =
      if is_some input.expected_amount
        && is_some input.expected_period_hours
        && is_some input.expected_created_at
      then ok (record {
        amount = input.expected_amount;
        created_at = input.expected_created_at;
        period_hours = input.expected_period_hours;
      })
      else (do
        (plan_pda, _) ←
            kit.find_plan_pda input.merchant input.plan_id (pda_config input.program_address)
        plan ← client.rpc.fetch_plan plan_pda
        ok (record {
          amount = filled input.expected_amount plan.terms.amount;
          created_at = filled input.expected_created_at plan.terms.created_at;
          period_hours = filled input.expected_period_hours plan.terms.period_hours;
        }))

  unfoldable pub subscribe : SubscribeInput (Option Signer) → Result Instruction
  subscribe input = do
    let subscriber = or_else input.subscriber client.identity
    assert_safe_u64 input.plan_id "planId"
    terms ← resolve_terms input
    init_id ←
        resolve_init_id input.token_mint subscriber.address input.program_address
          input.expected_subscription_authority_init_id no_subscriber_authority
    subscribe_overlay kit (record {
      program_address = input.program_address;
      expected_amount = terms.amount;
      expected_created_at = terms.created_at;
      expected_period_hours = terms.period_hours;
      expected_subscription_authority_init_id = some init_id;
      merchant = input.merchant;
      payer = payer_of kit client input.payer;
      plan_id = input.plan_id;
      subscriber = subscriber;
      token_mint = input.token_mint;
    })

  -- the plan state expected by `updatePlan`: of the live plan, fetched where one of the four is
  -- missing
  unfoldable pub resolve_plan : UpdatePlanInput (Option Signer) → Result ExpectedPlan
  resolve_plan input =
      if is_some input.expected_created_at
        && is_some input.expected_end_ts
        && is_some input.expected_pullers
        && is_some input.expected_metadata_uri
      then ok (record {
        created_at = input.expected_created_at;
        end_ts = input.expected_end_ts;
        metadata_uri = input.expected_metadata_uri;
        pullers = input.expected_pullers;
      })
      else (do
        plan ← client.rpc.fetch_plan input.plan_pda
        ok (record {
          created_at = filled input.expected_created_at plan.terms.created_at;
          end_ts = filled input.expected_end_ts plan.end_ts;
          metadata_uri = filled input.expected_metadata_uri plan.metadata_uri;
          pullers = filled input.expected_pullers plan.pullers;
        }))

  unfoldable pub update_plan : UpdatePlanInput (Option Signer) → Result Instruction
  update_plan input = do
    expected ← resolve_plan input
    update_plan_overlay kit (record {
      program_address = input.program_address;
      end_ts = input.end_ts;
      expected_created_at = expected.created_at;
      expected_end_ts = expected.end_ts;
      expected_metadata_uri = expected.metadata_uri;
      expected_pullers = expected.pullers;
      metadata_uri = input.metadata_uri;
      owner = or_else input.owner client.identity;
      plan_pda = input.plan_pda;
      pullers = input.pullers;
      status = input.status;
    })
