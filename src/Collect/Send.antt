-- ===== src/Collect/Send.antt =====
-- webapp/src/lib/collect-utils.ts, `sendBatchedSubscriberInstructions`: each batch of transfers is
-- sent as one transaction; a group that fails in simulation is split in two halves and retried.
pub mod Settling
pub mod Laws
use multi_delegator.Base.{
  ℕ, zero, suc, ◌+◌, ◌/◌, String, Bool, not, Option, none, some, List, [], ◌∷◌, ◌++◌, map, ◌==◌,
  if◌then◌else◌, length, take, drop,
}
use multi_delegator.Js.Storage.{Storage}
use multi_delegator.Js.Decimal.{template}
use text.Mathlib.Text.{starts_with}
use multi_delegator.Packer.{pack_instruction_batches}
use multi_delegator.Collect.Types.{CollectableSubscriber, SubscriberPaymentFailure, transfer_failed}
use multi_delegator.Collect.Cache.{clear_cached_failure}

-- An instruction object: Map compares objects by identity, which `ref` stands for.
pub record Instruction : Type 0 where
  pub ref : ℕ
  pub bytes : List ℕ

pub record SubscriberTransfer : Type 0 where
  pub subscriber : CollectableSubscriber
  pub instruction : Instruction

pub record ConfirmedSubscriberTransfer : Type 0 where
  pub subscriber : CollectableSubscriber
  pub signature : String

-- How a call of `sendInstructions` ends: a signature, or an error with its message.
pub data Outcome : Type 0 where
  signed : String → Outcome
  failed : String → Outcome

-- One call of `sendInstructions`, kept for what is proved of the calls.
pub record Call : Type 0 where
  pub instructions : List Instruction
  pub outcome : Outcome

pub record SubscriberInstructionSendResult : Type 0 where
  pub signatures : List String
  pub confirmed : List ConfirmedSubscriberTransfer
  pub collected : ℕ
  pub failures : List SubscriberPaymentFailure

-- the variables that `sendGroup` writes, the storage, and the calls made so far
pub record Sending : Type 0 where
  pub result : SubscriberInstructionSendResult
  pub storage : Storage
  pub calls : List Call

abbrev pub simulation_failure_prefix : String
simulation_failure_prefix = "Transaction simulation failed:"

-- `isKnownPreBroadcastFailure(err)`, of the error's message
unfoldable pub is_known_pre_broadcast_failure : String → Bool
is_known_pre_broadcast_failure message = starts_with message simulation_failure_prefix

abbrev pub failure_of : String → SubscriberTransfer → SubscriberPaymentFailure
failure_of message transfer = record {
  subscriber = transfer.subscriber;
  reason = transfer_failed;
  message = message;
}

abbrev pub confirmation_of : String → SubscriberTransfer → ConfirmedSubscriberTransfer
confirmation_of signature transfer = record {
  subscriber = transfer.subscriber;
  signature = signature;
}

clear_all : Storage → List SubscriberTransfer → Storage
clear_all s [] = s
clear_all s (transfer ∷ group) = clear_all (clear_cached_failure s transfer.subscriber) group

unfoldable pub note_call : List SubscriberTransfer → Outcome → Sending → Sending
note_call group outcome s = record s {
  calls =
      s.calls ++ record { instructions = map (λ t. t.instruction) group; outcome = outcome } ∷ [];
}

-- the group was sent
unfoldable pub confirm : List SubscriberTransfer → String → Sending → Sending
unfolding clear_all
confirm group signature s = record s {
  result = record {
    signatures = s.result.signatures ++ signature ∷ [];
    confirmed = s.result.confirmed ++ map (confirmation_of signature) group;
    collected = s.result.collected + length group;
    failures = s.result.failures;
  };
  storage = clear_all s.storage group;
}

-- every transfer of the group is reported with the message
unfoldable pub report : List SubscriberTransfer → String → Sending → Sending
report group message s = record s {
  result = record {
    signatures = s.result.signatures;
    confirmed = s.result.confirmed;
    collected = s.result.collected;
    failures = s.result.failures ++ map (failure_of message) group;
  };
}

abbrev pub unknown_status : String → String
unknown_status message =
    template ("Payment batch status is unknown and was not retried automatically: " ∷ message ∷ [])

abbrev later_or {ℓ} : {A : Type ℓ} → Option A → Option A → Option A
later_or (some a) o = some a
later_or none o = o

abbrev add_found {ℓ} : {A : Type ℓ} → Option A → List A → List A
add_found none rest = rest
add_found (some a) rest = a ∷ rest

-- `transferByInstruction.get(instruction)`: the last transfer that was set for the object
unfoldable pub transfer_by_instruction :
    List SubscriberTransfer → Instruction → Option SubscriberTransfer
transfer_by_instruction [] instruction = none
transfer_by_instruction (transfer ∷ transfers) instruction =
    later_or (transfer_by_instruction transfers instruction)
      (if transfer.instruction.ref == instruction.ref then some transfer else none)

-- the batch's transfers, without the instructions that no transfer has
unfoldable pub group_of : List SubscriberTransfer → List Instruction → List SubscriberTransfer
group_of transfers [] = []
group_of transfers (instruction ∷ batch) =
    add_found (transfer_by_instruction transfers instruction) (group_of transfers batch)

-- What follows the call for a group: `halves` is the state after both halves are sent.
pub after_call : List SubscriberTransfer → Sending → Sending → Outcome → Sending
after_call group s halves (signed signature) =
    confirm group signature (note_call group (signed signature) s)
after_call group s halves (failed message) =
    if not (is_known_pre_broadcast_failure message)
    then report group (unknown_status message) (note_call group (failed message) s)
    else if length group == 1
    then report group message (note_call group (failed message) s)
    else halves

-- the variables at the start
abbrev pub initial : Storage → Sending
initial storage = record {
  result = record { signatures = []; confirmed = []; collected = 0; failures = [] };
  storage = storage;
  calls = [];
}

-- What the network answers: any function of the calls made before and of the instructions sent.
module _ (send_instructions : List Call → List Instruction → Outcome) where
  -- `sendGroup(group)`; the halves of a group of two or more are smaller, so fuel that is at least
  -- the group's length is enough
  pub send_group : ℕ → List SubscriberTransfer → Sending → Sending
  send_group zero group s = s
  send_group (suc fuel) [] s = s
  send_group (suc fuel) (transfer ∷ group) s =
      let whole = transfer ∷ group in
      let outcome = send_instructions s.calls (map (λ t. t.instruction) whole) in
      let mid = length whole / 2 in
      let first = send_group fuel (take mid whole) (note_call whole outcome s) in
      let halves = send_group fuel (drop mid whole) first in after_call whole s halves outcome

  -- the loop over the batches
  pub send_batches : List SubscriberTransfer → List (List Instruction) → Sending → Sending
  send_batches transfers [] s = s
  send_batches transfers (batch ∷ batches) s =
      let group = group_of transfers batch in
      send_batches transfers batches (send_group (length group) group s)

  module _ (wire : List Instruction → Option (List ℕ)) where
    pub send_batched_subscriber_instructions : List SubscriberTransfer → Storage → Sending
    send_batched_subscriber_instructions transfers storage =
        send_batches transfers
          (pack_instruction_batches wire (map (λ t. t.instruction) transfers) []) (initial storage)
