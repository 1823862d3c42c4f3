-- ===== src/Tests/Clients.antt =====
-- Runs of the TypeScript client's builders at concrete inputs.
use multi_delegator.Base.{
  ◌-◌, ◌≤◌, String, ◌≡◌, refl, false, Option, none, some, List, [], ◌∷◌, ◌++◌, arith, length,
}
use multi_delegator.Base.Int.{pos}
use multi_delegator.Base.Result.{ok}
use multi_delegator.Client.Plugin.Laws.{revoke_subscription_ok}
use multi_delegator.Client.Hook.Laws.{unpack_seeds_fuel}
use multi_delegator.Client.Transfers.Laws.{transfer_fixed_ok}
use multi_delegator.Client.Types.{
  readonly, Quantity, Signer, AccountMeta, Instruction, bigint, whole, active, writable,
}
use multi_delegator.Client.Hook.{
  HookKit, hook_of, seed_step, seeds_from, unpack_seeds, extra_accounts, resolve_hook,
  resolve_unless, resolve_transfer_hook_accounts, transfer_hook,
}
use multi_delegator.Client.Inputs.{
  CreatePlanInput, UpdatePlanInput, SubscribeInput, TransferDelegationInput,
  RevokeSubscriptionInput,
}
use multi_delegator.Client.Generated.{
  GeneratedClient, EventAccounts, PlanData, update_plan_call, subscribe_call, fixed_transfer,
  transfer_delegation_call, revoke_delegation_call,
}
use multi_delegator.Client.Plans.{
  create_plan_overlay, check_create_plan, update_plan_overlay, subscribe_overlay,
}
use multi_delegator.Client.Plans.Laws.{
  IsPlanInput, check_create_plan-IsPlanInput, create_plan_overlay_ok, IsPositive,
}
use multi_delegator.Client.Plugin.{PluginClient, payer_of, revoke_subscription}
use multi_delegator.Client.Live.{
  subscribe, no_subscriber_authority, live_init_id, resolve_init_id, resolve_terms, resolve_plan,
  update_plan,
}
use multi_delegator.Client.Live.Laws.{subscribe_ok, update_plan_ok}
use multi_delegator.Client.Accounts.{
  AccountKit, fixed, to_encoded_account, decode_as, decode_delegation_account, decode_all,
  fetch_delegations_by_offset, fetch_delegations_by_delegator,
}
use multi_delegator.Client.Queries.Laws.{IsSummary, active_delegation_summary-IsSummary}
use multi_delegator.Client.Validators.{
  assert_positive, assert_safe_u64, assert_metadata_uri, assert_max_len, pad_plan_destinations,
  pad_plan_pullers,
}
use multi_delegator.Client.Overlay.{
  pda_config, append_payer, event_accounts, with_trailing, plain_meta,
}
use multi_delegator.Client.Queries.{DelegationSummary, active_delegation_summary}
use multi_delegator.Client.Overlay.Laws.{accounts_of, payer_metas, receiver_metas}
use multi_delegator.Client.Validators.Laws.{filled_up, zeros}
use multi_delegator.Client.Transfers.{resolve_delegation_hook_accounts, transfer_fixed}
use multi_delegator.Client.Delegations.{
  transfer_delegation_overlay, transfer_fixed_overlay, revoke_subscription_overlay,
}

abbrev built : Instruction
built = record { program_address = "program"; accounts = none; data_bytes = 1 ∷ [] }

-- a generated client whose finders and builder always answer the same
abbrev kit : GeneratedClient
kit = record {
  program_address = "program";
  find_event_authority_pda = λ config. ok "event-authority";
  find_subscription_authority_pda = λ token_mint user config. ok "authority";
  find_fixed_delegation_pda = λ delegatee delegator nonce authority config. ok "fixed";
  find_recurring_delegation_pda = λ delegatee delegator nonce authority config. ok "recurring";
  find_plan_pda = λ owner plan_id config. ok ("plan", 254);
  find_associated_token_pda = λ mint owner token_program. ok "ata";
  get_instruction = λ call config. ok built;
  utf8_length = λ text. 5;
}

abbrev owner : Signer
owner = record { ref = 1; address = "owner" }

abbrev sponsor : Signer
sponsor = record { ref = 2; address = "sponsor" }

abbrev plan_input : CreatePlanInput Signer
plan_input = record {
  program_address = none;
  amount = bigint (pos 10);
  destinations = "d1" ∷ [];
  end_ts = bigint (pos 0);
  metadata_uri = "https";
  mint = "mint";
  owner = owner;
  payer = some sponsor;
  period_hours = whole (pos 24);
  plan_id = whole (pos 7);
  pullers = "p1" ∷ "p2" ∷ [];
  token_program = none;
}

plan_input-IsPlanInput : IsPlanInput kit plan_input
plan_input-IsPlanInput = record {
  amount = omega arith;
  period = omega arith;
  plan_id = (omega arith, omega arith);
  metadata = omega arith;
  destinations = omega arith;
  pullers = omega arith;
}

check_create_plan-IsPlanInput_example :
    check_create_plan kit plan_input
    ≡ ok (
      ("d1" ∷ []) ++ zeros (4 - length plan_input.destinations),
      ("p1" ∷ "p2" ∷ []) ++ zeros (4 - length plan_input.pullers),
    )
check_create_plan-IsPlanInput_example =
    check_create_plan-IsPlanInput kit plan_input plan_input-IsPlanInput

plan_built : create_plan_overlay kit plan_input ≡ ok (append_payer built (some sponsor))
unfolding create_plan_overlay check_create_plan assert_positive assert_safe_u64 assert_metadata_uri
    pad_plan_destinations pad_plan_pullers assert_max_len
plan_built = refl

create_plan_overlay_ok_example : IsPlanInput kit plan_input
create_plan_overlay_ok_example =
    (create_plan_overlay_ok kit plan_input {ix = append_payer built (some sponsor)} plan_built).0

abbrev live_plan : PlanData
live_plan = record {
  destinations = [];
  end_ts = bigint (pos 0);
  metadata_uri = "https";
  mint = "mint";
  plan_id = bigint (pos 7);
  pullers = "p1" ∷ [];
  terms = record {
    amount = bigint (pos 10);
    created_at = bigint (pos 3);
    period_hours = bigint (pos 24);
  };
}

abbrev client : PluginClient
client = record {
  payer = sponsor;
  identity = owner;
  rpc = record {
    fetch_plan = λ address. ok live_plan;
    fetch_maybe_subscription_authority = λ address. ok (some (bigint (pos 99)));
  };
}

abbrev subscribe_input : SubscribeInput (Option Signer)
subscribe_input = record {
  program_address = none;
  expected_amount = some (bigint (pos 11));
  expected_created_at = none;
  expected_period_hours = none;
  expected_subscription_authority_init_id = none;
  merchant = "owner";
  payer = none;
  plan_id = bigint (pos 7);
  subscriber = none;
  token_mint = "mint";
}

subscribed : subscribe kit client subscribe_input ≡ ok (append_payer built (some sponsor))
unfolding subscribe subscribe_overlay resolve_terms resolve_init_id live_init_id assert_safe_u64
    event_accounts payer_of
subscribed = refl

subscribe_ok_example :
    (init_id : Quantity) × (events : EventAccounts) × (authority : String) × (base : Instruction)
    × (resolve_init_id kit client "mint" "owner" none none no_subscriber_authority ≡ ok init_id)
    × (kit.get_instruction
          (subscribe_call events "owner" "plan"
            (record {
              expected_amount = bigint (pos 11);
              expected_created_at = bigint (pos 3);
              expected_mint = "mint";
              expected_period_hours = bigint (pos 24);
              expected_subscription_authority_init_id = init_id;
              plan_bump = 254;
              plan_id = bigint (pos 7);
            })
            owner
            authority)
          (pda_config none)
        ≡ ok base)
    × (accounts_of (append_payer built (some sponsor))
        ≡ accounts_of base ++ payer_metas (payer_of kit client none))
subscribe_ok_example =
    subscribe_ok kit client subscribe_input ("plan", 254) live_plan refl refl subscribed

abbrev update_input : UpdatePlanInput (Option Signer)
update_input = record {
  program_address = none;
  end_ts = bigint (pos 100);
  expected_created_at = none;
  expected_end_ts = none;
  expected_metadata_uri = none;
  expected_pullers = none;
  metadata_uri = "https";
  owner = none;
  plan_pda = "plan";
  pullers = "p2" ∷ [];
  status = active;
}

updated : update_plan kit client update_input ≡ ok built
unfolding update_plan update_plan_overlay resolve_plan assert_metadata_uri pad_plan_pullers
    assert_max_len event_accounts
updated = refl

update_plan_ok_example :
    (length update_input.pullers ≤ 4)
    × (length live_plan.pullers ≤ 4)
    × (5 ≤ 128)
    × ((events : EventAccounts) × (kit.get_instruction
            (update_plan_call events owner "plan" (record {
              end_ts = bigint (pos 100);
              expected_created_at = bigint (pos 3);
              expected_end_ts = bigint (pos 0);
              expected_metadata_uri = "https";
              expected_pullers = filled_up ("p1" ∷ []);
              metadata_uri = "https";
              pullers = filled_up ("p2" ∷ []);
              status = active;
            }))
            (pda_config none)
          ≡ ok built))
update_plan_ok_example = update_plan_ok kit client update_input live_plan refl updated

-- an RPC that knows one fixed delegation; the account types are texts
abbrev accounts : AccountKit String String String String
accounts = record {
  subscriptions_program_address = "program";
  fixed_delegation = 1;
  recurring_delegation = 2;
  subscription_delegation = 3;
  base64_encode = λ text. ok (1 ∷ 7 ∷ []);
  decode_fixed_delegation = λ encoded. ok "decoded";
  decode_recurring_delegation = λ encoded. ok "decoded";
  decode_subscription_delegation = λ encoded. ok "decoded";
  decode_plan = λ encoded. ok "decoded";
  get_program_accounts = λ program filters. ok (
      record {
        pubkey = "account";
        base64_data = "AQc=";
        executable = false;
        lamports = 5;
        space = 2;
      }
      ∷ []);
}

fetched :
    fetch_delegations_by_delegator accounts "wallet" none ≡ ok (fixed "account" "decoded" ∷ [])
unfolding fetch_delegations_by_delegator fetch_delegations_by_offset decode_all
    decode_delegation_account decode_as to_encoded_account
fetched = refl

active_delegation_summary-IsSummary_example :
    (r : DelegationSummary) × (active_delegation_summary accounts "wallet" ≡ ok r)
    × IsSummary {F = String} {R = String} {S = String} (fixed "account" "decoded" ∷ []) r
active_delegation_summary-IsSummary_example =
    active_delegation_summary-IsSummary accounts "wallet" (fixed "account" "decoded" ∷ []) fetched

abbrev hooks : HookKit
hooks = record {
  token_2022_program_address = "token-2022";
  encode_address = λ address. ok (7 ∷ []);
  decode_address = λ bytes. ok "decoded";
  get_program_derived_address = λ program_address seeds. ok "validation";
  fetch_encoded_account = λ address. ok none;
  fetch_mint = λ mint. ok (some (transfer_hook "hook" ∷ []));
  extra_account_metas_seed = 101 ∷ [];
}

abbrev transfer_input : TransferDelegationInput (Option Signer)
transfer_input = record {
  program_address = none;
  amount = bigint (pos 10);
  delegatee = none;
  delegation_pda = "fixed";
  delegator = "alice";
  delegator_ata = "ata";
  receiver_ata = "receiver";
  token_mint = "mint";
  token_program = "token-2022";
  transfer_hook_accounts = none;
}

abbrev hook_metas : List AccountMeta
hook_metas = plain_meta "hook" readonly ∷ plain_meta "validation" readonly ∷ []

transferred : transfer_fixed kit hooks client transfer_input ≡ ok (with_trailing built hook_metas)
unfolding transfer_fixed transfer_fixed_overlay transfer_delegation_overlay assert_positive
    event_accounts resolve_delegation_hook_accounts resolve_transfer_hook_accounts resolve_unless
    resolve_hook hook_of extra_accounts
transferred = refl

transfer_fixed_ok_example :
    (hook_accounts : List AccountMeta) × (authority : String) × (events : EventAccounts)
    × (base : Instruction) × IsPositive transfer_input.amount
    × (resolve_delegation_hook_accounts kit hooks client transfer_input ≡ ok hook_accounts)
    × (kit.find_subscription_authority_pda "mint" "alice" (pda_config none) ≡ ok authority)
    × (kit.get_instruction
          (transfer_delegation_call fixed_transfer events owner "fixed" "ata" "receiver" authority
            "mint" "token-2022"
            (record { amount = bigint (pos 10); delegator = "alice"; mint = "mint" }))
          (pda_config none)
        ≡ ok base)
    × (accounts_of (with_trailing built hook_metas) ≡ accounts_of base ++ hook_accounts)
transfer_fixed_ok_example = transfer_fixed_ok kit hooks client transfer_input transferred

unpack_seeds_fuel_example :
    seeds_from hooks hook_metas (9 ∷ []) (ok []) 50 (3 ∷ 0 ∷ 1 ∷ 2 ∷ 5 ∷ 6 ∷ 0 ∷ []) 0
    ≡ unpack_seeds hooks hook_metas (9 ∷ []) (3 ∷ 0 ∷ 1 ∷ 2 ∷ 5 ∷ 6 ∷ 0 ∷ [])
unpack_seeds_fuel_example =
    unpack_seeds_fuel hooks hook_metas (9 ∷ []) (ok []) 50 (3 ∷ 0 ∷ 1 ∷ 2 ∷ 5 ∷ 6 ∷ 0 ∷ [])
      (omega arith)

-- a seed of an earlier account and one of two literal bytes
seeds_unpacked :
    unpack_seeds hooks hook_metas (9 ∷ []) (3 ∷ 0 ∷ 1 ∷ 2 ∷ 5 ∷ 6 ∷ 0 ∷ [])
    ≡ ok ((7 ∷ []) ∷ (5 ∷ 6 ∷ []) ∷ [])
unfolding unpack_seeds seeds_from seed_step
seeds_unpacked = refl

abbrev revoke_input : RevokeSubscriptionInput (Option Signer)
revoke_input = record {
  program_address = none;
  authority = none;
  plan_pda = "plan";
  receiver = some "receiver";
  subscription_pda = "subscription";
}

abbrev revoke_metas : List AccountMeta
revoke_metas = plain_meta "plan" readonly ∷ plain_meta "receiver" writable ∷ []

revoked : revoke_subscription kit client revoke_input ≡ ok (with_trailing built revoke_metas)
unfolding revoke_subscription revoke_subscription_overlay
revoked = refl

revoke_subscription_ok_example :
    (base : Instruction) × (kit.get_instruction
        (revoke_delegation_call owner "subscription")
        (pda_config none)
      ≡ ok base)
    × (accounts_of (with_trailing built revoke_metas)
        ≡ accounts_of base ++ (plain_meta "plan" readonly ∷ receiver_metas (some "receiver")))
revoke_subscription_ok_example = revoke_subscription_ok kit client revoke_input revoked
