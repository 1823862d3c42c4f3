-- ===== src/Tests/Mutating.antt =====
-- Tests of the mutations of the web application, and witnesses of what is proved of them.
use multi_delegator.Base.{
  ℕ, String, ◌≡◌, refl, true, Option, none, some, List, [], ◌∷◌, ◌++◌, map, str_eq, ◌==◌,
  if◌then◌else◌, length, All,
}
use multi_delegator.Base.Int.{pos}
use multi_delegator.Base.Result.{ok, throw}
use multi_delegator.Filters.{
  PlanSubscriberAuthorityStatus, DelegationType, filter_delegations_by_mint, group_delegations,
  group_delegations_by_mint, get_live_plan_subscribers, get_authority_stale_plan_subscribers,
  fixed_type, recurring_type, live_authority, rotated_authority,
}
use multi_delegator.Deploy.Adding.{accepted}
use multi_delegator.Collect.Send.Settling.{Merge}
use multi_delegator.Filters.Laws.{group_delegations_by_mint_ok, live_stale_partition, IsGone}
use multi_delegator.Js.Value.{is_record, field, string?, has_field}
use multi_delegator.Js.Storage.{get_item}
use multi_delegator.Js.Decimal.{big_int}
use multi_delegator.Collect.Cache.{read_cached_failure, read_failure_cache, clear_cached_failure}
use multi_delegator.Base.Dict.{Dict, get, put}
use multi_delegator.Client.Types.{Instruction, bigint, readonly, Signer}
use multi_delegator.Client.Generated.{GeneratedClient, fixed_transfer}
use multi_delegator.Client.Hook.{HookKit, resolve_unless, resolve_transfer_hook_accounts}
use multi_delegator.Collect.Send
use multi_delegator.Mutations.{
  Services, HookState, connected, resolve_token_program, configured,
  resolve_subscription_hook_accounts,
}
use multi_delegator.Mutations.Plans.{
  cancel_and_revoke_instructions, cancel_instructions, revoke_instructions,
}
use multi_delegator.Tests.Deploying.{wallet, network, start_world, takes_all}
use multi_delegator.Mutations.Laws.{resolve_token_program_cached, cancel_and_revoke_ok}
use multi_delegator.Client.Plans.{cancel_subscription_overlay}
use multi_delegator.Client.Delegations.{
  revoke_subscription_overlay, revoke_delegation_overlay, transfer_delegation_overlay,
  transfer_fixed_overlay, transfer_subscription_overlay,
}
use multi_delegator.Client.Overlay.{
  with_trailing, plain_meta, event_accounts, pda_config, append_receiver,
}
use multi_delegator.Packer.{
  base64_byte_length, tx_byte_size, pack_loop, pack_instruction_batches_with_items,
  pack_instruction_batches, fitting,
}
use multi_delegator.Tests.Collecting.{empty_storage, account_value, bob}
use multi_delegator.Mutations.Wallet.{check_simulation, sign_and_send}
use multi_delegator.Mutations.Batches.{
  RevocableDelegation, all_ok, send_in_order, revoke_one, revoke_multiple_delegations,
}
use multi_delegator.Mutations.Delegations.{TransferParams, transfer_to, build_transfer_ixs}
use multi_delegator.Mutations.Collect.{
  CollectParams, CollectResult, subscription_transfer, collect_to, collect_subscription_payments,
  transfer_entries, send_entries, collect_result,
}
use multi_delegator.Mutations.Delegations.Laws.{IsTransferOf, build_transfer_ixs_ok}
use multi_delegator.Mutations.Batches.Laws.{revoke_multiple_delegations_ok, IsSent}
use multi_delegator.Client.Validators.{zero_address, assert_positive}
use multi_delegator.Client.Plugin.{PluginClient}
use multi_delegator.Collect.Readiness.{
  is_cached_state, Kit, token_problem, settle_parsed, settle, partition,
  check_subscriber_token_readiness, check_all, filter_payable_subscribers,
}
use multi_delegator.Collect.Send.{
  Outcome, Call, send_batched_subscriber_instructions, signed, SubscriberTransfer, Sending,
}
use multi_delegator.Deploy.Action.{World, try_catch, ◌>>=◌, pure, raise, lift, ask, send}
use multi_delegator.Collect.Account.{parse_token_account}
use multi_delegator.Mutations.Collect.Laws.{IsBalanced, collect_subscription_payments-IsBalanced}
use multi_delegator.Mutations.Run.{
  instructions_of, run_mutation, run_mutation_sends, cancel_and_revoke_subscription,
}

abbrev made : Instruction
made = record { program_address = "program"; accounts = none; data_bytes = 1 ∷ [] }

abbrev generated : GeneratedClient
generated = record {
  program_address = "program";
  find_event_authority_pda = λ config. ok "event-authority";
  find_subscription_authority_pda = λ token_mint user config. ok "authority";
  find_fixed_delegation_pda = λ delegatee delegator nonce authority config. ok "fixed";
  find_recurring_delegation_pda = λ delegatee delegator nonce authority config. ok "recurring";
  find_plan_pda = λ owner plan_id config. ok ("plan", 254);
  find_associated_token_pda = λ mint owner token_program. ok "ata";
  get_instruction = λ call config. ok made;
  utf8_length = λ text. 5;
}

abbrev no_hooks : HookKit
no_hooks = record {
  token_2022_program_address = "token-2022";
  encode_address = λ address. ok [];
  decode_address = λ bytes. ok "address";
  get_program_derived_address = λ program seeds. ok "derived";
  fetch_encoded_account = λ address. ok none;
  fetch_mint = λ mint. ok none;
  extra_account_metas_seed = [];
}

abbrev services : Services
services = record {
  kit = generated;
  hooks = no_hooks;
  check_address = λ text. ok text;
  fetch_maybe_authority = λ address. ok none;
  fetch_account_owner = λ address. ok (some "token");
  block_timestamp = ok (bigint (pos 1000));
  create_ata = λ ata mint owner payer token_program. made;
  revoke_abandoned_delegation = λ account payer authority program. made;
  revoke_abandoned_subscription = λ payer plan account authority program. made;
}

abbrev hook_state : HookState
hook_state = record {
  signer = some wallet;
  prog_id = some "program";
  rpc_url = "http";
  revoke_feature = true;
  token_programs = [];
}

abbrev found_programs : Dict String
found_programs = ("http:mint", "token") ∷ []

resolved : resolve_token_program services "http" "mint" [] ≡ (ok "token", found_programs)
unfolding resolve_token_program get put
resolved = refl

resolve_token_program_cached_example :
    resolve_token_program services "http" "mint" found_programs ≡ (ok "token", found_programs)
resolve_token_program_cached_example =
    resolve_token_program_cached services services "http" "mint" "token" [] found_programs refl
      resolved

cancelled_and_revoked :
    cancel_and_revoke_instructions services hook_state "subscription" "plan" "wallet"
    ≡ ok (made ∷ with_trailing made (plain_meta "plan" readonly ∷ []) ∷ [])
unfolding cancel_and_revoke_instructions connected configured cancel_subscription_overlay
    revoke_subscription_overlay event_accounts
cancelled_and_revoked = refl

cancel_and_revoke_ok_example :
    (cancel revoke : Instruction) × (cancel_instructions services hook_state "plan" "subscription"
      ≡ ok (cancel ∷ []))
    × (revoke_instructions services hook_state "subscription" "plan" "wallet" ≡ ok (revoke ∷ []))
    × (made ∷ with_trailing made (plain_meta "plan" readonly ∷ []) ∷ [] ≡ cancel ∷ revoke ∷ [])
cancel_and_revoke_ok_example =
    cancel_and_revoke_ok services hook_state "subscription" "plan" "wallet"
      (made ∷ with_trailing made (plain_meta "plan" readonly ∷ []) ∷ []) cancelled_and_revoked

abbrev transfer_params : TransferParams
transfer_params = record {
  amount = bigint (pos 5);
  delegation_account = "delegation";
  delegator = "alice";
  receiver_ata = none;
  token_mint = "mint";
}

abbrev some_client : PluginClient
some_client = record {
  payer = wallet;
  identity = wallet;
  rpc = record {
    fetch_plan = λ address. throw "no plan";
    fetch_maybe_subscription_authority = λ address. ok none;
  };
}

transfer_built :
    build_transfer_ixs services hook_state transfer_params fixed_transfer ≡ ok (made ∷ made ∷ [])
unfolding build_transfer_ixs transfer_to connected configured resolve_transfer_hook_accounts
    resolve_unless transfer_fixed_overlay transfer_delegation_overlay event_accounts with_trailing
    assert_positive resolve_token_program get pda_config
transfer_built = refl

build_transfer_ixs_ok_example :
    (signer : Signer) × (connected hook_state ≡ ok signer)
    × IsTransferOf services hook_state some_client transfer_params signer (made ∷ made ∷ [])
build_transfer_ixs_ok_example =
    build_transfer_ixs_ok services hook_state some_client transfer_params (made ∷ made ∷ [])
      transfer_built

abbrev wire_of : List Instruction → Option (List ℕ)
wire_of ixs = some (65 ∷ 65 ∷ 65 ∷ 65 ∷ [])

abbrev two_delegations : List RevocableDelegation
two_delegations =
    record { address = "first"; payer = "wallet" }
    ∷ record { address = "second"; payer = "bob" }
    ∷ []

abbrev revoked_world : World
revoked_world =
    (revoke_multiple_delegations (network takes_all) services hook_state wire_of two_delegations
      start_world).1

revoked_run :
    revoke_multiple_delegations
      (network takes_all)
      services
      hook_state
      wire_of
      two_delegations
      start_world
    ≡ (ok (record { revoked = 2; signatures = "signature" ∷ [] }), revoked_world)
unfolding revoke_multiple_delegations send_in_order sign_and_send check_simulation connected
    configured revoke_delegation_overlay append_receiver pack_instruction_batches
    pack_instruction_batches_with_items pack_loop fitting tx_byte_size base64_byte_length send
    try_catch raise lift pure ask ◌>>=◌
revoked_run = refl

revoke_multiple_delegations_ok_example :
    (signer : Signer) × (program : String) × (instructions : List Instruction) × (connected
        hook_state
      ≡ ok signer)
    × (all_ok (
          map
            (revoke_one (network takes_all) services hook_state wire_of signer program)
            two_delegations)
        ≡ ok instructions)
    × IsSent start_world revoked_world instructions
    × (2 ≡ length instructions)
revoke_multiple_delegations_ok_example =
    revoke_multiple_delegations_ok (network takes_all) wire_of services hook_state two_delegations
      start_world revoked_world (record { revoked = 2; signatures = "signature" ∷ [] }) revoked_run

abbrev readiness_kit : Kit
readiness_kit = record {
  address = λ text. ok text;
  encode_address = λ address. [];
  find_associated_token_pda = λ mint owner token_program. ok "ata";
  get_program_derived_address = λ program seeds. ok "authority";
  account_value = λ address. ok account_value;
  now = pos 3;
}

abbrev collect_params : CollectParams
collect_params = record {
  destinations = zero_address ∷ "merchant" ∷ [];
  mint = "mint";
  plan_address = "plan";
  subscribers = bob ∷ [];
}

abbrev always_signed : List Call → List Send.Instruction → Outcome
always_signed calls ixs = signed "signature"

abbrev wire_sent : List Send.Instruction → Option (List ℕ)
wire_sent ixs = some (65 ∷ 65 ∷ 65 ∷ 65 ∷ [])

-- bob can pay, and is sent for in one transfer
abbrev bob_transfer : SubscriberTransfer
bob_transfer = record { subscriber = bob; instruction = record { ref = 0; bytes = 1 ∷ [] } }

abbrev bob_sending : Sending
bob_sending =
    send_batched_subscriber_instructions always_signed wire_sent (bob_transfer ∷ []) empty_storage

abbrev bob_result : CollectResult
bob_result =
    collect_result services hook_state readiness_kit (λ ix. ix.data_bytes) (λ ix. ok "first")
      always_signed wire_sent (record { payable = bob ∷ []; failures = [] }) 1 "first"
      bob_sending.result

collect_run :
    collect_subscription_payments services hook_state readiness_kit
      (λ ix. ix.data_bytes)
      (λ ix. ok "first")
      always_signed
      wire_sent
      collect_params
      empty_storage
    ≡ ok (bob_result, bob_sending.storage)
unfolding collect_subscription_payments connected configured collect_to subscription_transfer
    resolve_token_program get put resolve_subscription_hook_accounts resolve_transfer_hook_accounts
    resolve_unless transfer_subscription_overlay event_accounts with_trailing pda_config
    assert_positive filter_payable_subscribers check_all check_subscriber_token_readiness settle
    settle_parsed parse_token_account token_problem partition transfer_entries send_entries
    is_record field string? big_int is_cached_state read_cached_failure read_failure_cache get_item
    clear_cached_failure has_field
collect_run = refl

collect_subscription_payments-IsBalanced_example :
    IsBalanced services hook_state readiness_kit
      (λ ix. ix.data_bytes)
      (λ ix. ok "first")
      always_signed
      wire_sent
      bob_result
    × (bob_result.total ≡ 1)
collect_subscription_payments-IsBalanced_example =
    collect_subscription_payments-IsBalanced services hook_state readiness_kit (λ ix. ix.data_bytes)
      (λ ix. ok "first") always_signed wire_sent collect_params empty_storage bob_sending.storage
      bob_result collect_run

signature_run :
    run_mutation services hook_state
      (network takes_all)
      (cancel_and_revoke_subscription "subscription" "plan" "wallet")
      start_world
    ≡ (
      ok "signature",
      (run_mutation services hook_state
          (network takes_all)
          (cancel_and_revoke_subscription "subscription" "plan" "wallet")
          start_world).1,
    )
unfolding run_mutation instructions_of sign_and_send check_simulation connected configured
    cancel_and_revoke_instructions cancel_subscription_overlay revoke_subscription_overlay
    event_accounts send try_catch raise lift pure ask ◌>>=◌
signature_run = refl

run_mutation_sends_example :
    (signer : Signer) × (instructions : List Instruction) × (connected hook_state ≡ ok signer)
    × (instructions_of services hook_state
          (cancel_and_revoke_subscription "subscription" "plan" "wallet")
        ≡ ok instructions)
    × (accepted
          (run_mutation services hook_state
            (network takes_all)
            (cancel_and_revoke_subscription "subscription" "plan" "wallet")
            start_world).1.log
        ≡ [] ++ instructions ∷ [])
run_mutation_sends_example =
    run_mutation_sends services hook_state (network takes_all)
      (cancel_and_revoke_subscription "subscription" "plan" "wallet") start_world _ "signature"
      signature_run

abbrev type_by_length : String → DelegationType
type_by_length text = if str_eq text "fixed" then fixed_type else recurring_type

abbrev status_by_number : ℕ → Option PlanSubscriberAuthorityStatus
status_by_number n = some (if n == 0 then live_authority else rotated_authority)

group_delegations_by_mint_ok_example :
    All (λ text. type_by_length text ≡ fixed_type) ("fixed" ∷ [])
    × All (λ text. type_by_length text ≡ recurring_type) ("recurring" ∷ [])
    × Merge {A = String} ("fixed" ∷ []) ("recurring" ∷ []) ("recurring" ∷ "fixed" ∷ [])
unfolding group_delegations_by_mint group_delegations filter_delegations_by_mint
group_delegations_by_mint_ok_example =
    let (listed, fixed, recurring, split) =
      group_delegations_by_mint_ok (λ text. "mint") type_by_length ("recurring" ∷ "fixed" ∷ [])
        "mint" in
    (fixed, recurring, split)

live_stale_partition_example :
    All (λ n. status_by_number n ≡ some live_authority) (0 ∷ [])
    × All (λ n. IsGone (status_by_number n)) (1 ∷ [])
    × Merge {A = ℕ} (0 ∷ []) (1 ∷ []) (1 ∷ 0 ∷ [])
unfolding get_live_plan_subscribers get_authority_stale_plan_subscribers
live_stale_partition_example = live_stale_partition status_by_number (1 ∷ 0 ∷ []) (λ n. refl)
