-- ===== src/Mutations/Collect.antt =====
-- webapp/src/hooks/use-subscriptions-mutations.ts, `collectSubscriptionPayments`: the readiness
-- checks, the transfer instructions and the batched sending, composed.
pub mod Laws
use multi_delegator.Base.{
  ℕ, ◌+◌, String, Bool, not, Option, none, some, List, [], ◌∷◌, ◌++◌, map, str_eq, ltb, length,
  find_if,
}
use multi_delegator.Base.Int.{ℤ}
use multi_delegator.Base.Result.{Result, ok, ◌>>=◌}
use multi_delegator.Client.Types.{Instruction, Signer, bigint, when_given}
use multi_delegator.Js.Storage.{Storage}
use multi_delegator.Collect.Types.{
  CollectableSubscriber, SubscriberPaymentFailure, PayableSubscribersResult,
}
use multi_delegator.Collect.Readiness.{Kit, filter_payable_subscribers}
use multi_delegator.Collect.Send
use multi_delegator.Collect.Send.{
  Call, Outcome, SubscriberTransfer, ConfirmedSubscriberTransfer, SubscriberInstructionSendResult,
  send_batched_subscriber_instructions,
}
use multi_delegator.Mutations.{
  Services, connected, HookState, configured, token_program_of, resolve_subscription_hook_accounts,
}
use multi_delegator.Client.Validators.{zero_address}
use multi_delegator.Client.Delegations.{transfer_subscription_overlay}

pub record CollectParams : Type 0 where
  pub destinations : List String
  pub mint : String
  pub plan_address : String
  pub subscribers : List CollectableSubscriber

pub record CollectedTransfer : Type 0 where
  pub amount : ℤ
  pub signature : String
  pub subscription_address : String

pub record CollectResult : Type 0 where
  pub collected : ℕ
  pub failures : List SubscriberPaymentFailure
  pub partial : Bool
  pub signatures : List String
  pub total : ℕ
  pub transfers : List CollectedTransfer

abbrev pub collected_transfer : ConfirmedSubscriberTransfer → CollectedTransfer
collected_transfer confirmed = record {
  amount = confirmed.subscriber.amount;
  signature = confirmed.signature;
  subscription_address = confirmed.subscriber.subscription_address;
}

-- `destinations.find(d => d !== ZERO_ADDRESS)`
abbrev pub first_destination : List String → Option String
first_destination destinations = find_if (λ d. not (str_eq d zero_address)) destinations

abbrev pub owner_of_receiver :
    (String → Result String) → (own : String) → Option String → Result String
owner_of_receiver check own none = ok own
owner_of_receiver check own (some destination) = check destination

module _ (services : Services) (state : HookState) (readiness : Kit) where
  open services use {kit, check_address}

  unfoldable pub subscription_transfer :
      Signer
      → (program mint token_program plan_pda receiver_ata : String) → CollectableSubscriber
      → Result Instruction
  unfolding resolve_subscription_hook_accounts
  subscription_transfer signer program mint token_program plan_pda receiver_ata subscriber = do
    delegator ← check_address subscriber.delegator
    subscription ← check_address subscriber.subscription_address
    hook_accounts ←
        resolve_subscription_hook_accounts services state mint delegator receiver_ata
          (bigint subscriber.amount) token_program
    transfer_subscription_overlay kit (record {
      program_address = some program;
      amount = bigint subscriber.amount;
      caller = signer;
      delegator = delegator;
      plan_pda = plan_pda;
      receiver_ata = receiver_ata;
      subscription_pda = subscription;
      token_mint = mint;
      token_program = token_program;
      transfer_hook_accounts = some hook_accounts;
    })

  -- What the kit makes of an instruction, and the network: the answer for the token account's
  -- creation, and those for the transfers.
  module _ (serialize : Instruction → List ℕ) (send_first : Instruction → Result String)
      (send_instructions : List Call → List Send.Instruction → Outcome)
      (wire : List Send.Instruction → Option (List ℕ)) where
    -- `Promise.all(payable.map(…))`: a new object for each instruction
    unfoldable pub transfer_entries :
        (CollectableSubscriber → Result Instruction)
        → (next_ref : ℕ) → List CollectableSubscriber
        → Result (List SubscriberTransfer)
    transfer_entries build next_ref [] = ok []
    transfer_entries build next_ref (subscriber ∷ subscribers) = do
      instruction ← build subscriber
      entries ← transfer_entries build (next_ref + 1) subscribers
      ok (
          record {
            subscriber = subscriber;
            instruction = record { ref = next_ref; bytes = serialize instruction };
          }
          ∷ entries)

    abbrev pub collect_result :
        PayableSubscribersResult → ℕ → String → SubscriberInstructionSendResult → CollectResult
    collect_result checked total signature result = record {
      collected = result.collected;
      failures = checked.failures ++ result.failures;
      partial = ltb 0 (length (checked.failures ++ result.failures));
      signatures = signature ∷ result.signatures;
      total = total;
      transfers = map collected_transfer result.confirmed;
    }

    abbrev nothing_to_send : PayableSubscribersResult → ℕ → CollectResult
    nothing_to_send checked total = record {
      collected = 0;
      failures = checked.failures;
      partial = ltb 0 (length checked.failures);
      signatures = [];
      total = total;
      transfers = [];
    }

    -- from the entries on
    unfoldable pub send_entries :
        Instruction
        → PayableSubscribersResult
        → ℕ
        → List SubscriberTransfer
        → Storage
        → Result (CollectResult × Storage)
    send_entries create_ata checked total [] s = ok (nothing_to_send checked total, s)
    send_entries create_ata checked total (entry ∷ entries) s = do
      signature ← send_first create_ata
      let sending = send_batched_subscriber_instructions send_instructions wire (entry ∷ entries) s
      ok (collect_result checked total signature sending.result, sending.storage)

    -- from the receiver's token account on
    unfoldable pub collect_to :
        Signer
        → (program mint token_program plan_pda owner receiver_ata : String)
        → List CollectableSubscriber
        → Storage
        → Result (CollectResult × Storage)
    unfolding subscription_transfer transfer_entries send_entries
    collect_to signer program mint token_program plan_pda owner receiver_ata subscribers s = do
      (checked, s') ← filter_payable_subscribers readiness mint token_program program subscribers s
      entries ←
          transfer_entries
            (subscription_transfer signer program mint token_program plan_pda receiver_ata) 0
            checked.payable
      send_entries (services.create_ata receiver_ata mint owner signer token_program) checked
          (length subscribers) entries s'

    -- the value, and the storage with the cache of failures; a rejection is thrown
    unfoldable pub collect_subscription_payments :
        CollectParams → Storage → Result (CollectResult × Storage)
    unfolding connected configured collect_to
    collect_subscription_payments params s = do
      signer ← connected state
      program ← configured state
      mint ← check_address params.mint
      token_program ← token_program_of services state mint
      plan_pda ← check_address params.plan_address
      owner ←
          owner_of_receiver check_address signer.address
            (when_given (first_destination params.destinations))
      receiver_ata ← kit.find_associated_token_pda mint owner token_program
      collect_to signer program mint token_program plan_pda owner receiver_ata params.subscribers s
