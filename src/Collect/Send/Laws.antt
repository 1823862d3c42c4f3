-- ===== src/Collect/Send/Laws.antt =====
-- Sending all transfers: each is settled exactly once, and never sent again after a call whose outcome
-- on the network is a success or unknown.
use multi_delegator.Base.{
  ℕ, ◌≡◌, refl, ap, ◌∙◌, ◌≢◌, Option, none, some, List, [], ◌∷◌, ◌++◌, map, arith, length, All,
  concat,
}
use mathlib.Core.Path.{subst}
use multi_delegator.Collect.Send.{
  Sending, Instruction, SubscriberTransfer, Outcome, Call, transfer_by_instruction, group_of,
  initial, send_group, send_batches, send_batched_subscriber_instructions,
}
use multi_delegator.Packer.Laws.{pack_instruction_batches_with_items_complete}
use multi_delegator.Packer.{pack_instruction_batches}
use multi_delegator.Collect.Send.Settling.{Settled, Settled-nil, Settled-append, send_group-Settled}
use multi_delegator.Js.Storage.{Storage}

-- The transfers have instruction objects of their own.
abbrev pub HasOwnInstructions : List SubscriberTransfer → Type 0
HasOwnInstructions [] = Unit
HasOwnInstructions (t ∷ ts) =
    All (λ u. u.instruction.ref ≢ t.instruction.ref) ts × HasOwnInstructions ts

abbrev Finds : List SubscriberTransfer → List SubscriberTransfer → Type 0
Finds transfers = All (λ u. transfer_by_instruction transfers u.instruction ≡ some u)

transfer_by_instruction_absent :
    (ts : List SubscriberTransfer) (i : Instruction)
    → All (λ u. u.instruction.ref ≢ i.ref) ts
    → transfer_by_instruction ts i ≡ none
unfolding transfer_by_instruction
transfer_by_instruction_absent [] i h = refl
transfer_by_instruction_absent (t ∷ ts) i (p, h) =
    rw (transfer_by_instruction_absent ts i h) (ground arith)

Finds-later :
    (t : SubscriberTransfer) (ts us : List SubscriberTransfer) → Finds ts us → Finds (t ∷ ts) us
unfolding transfer_by_instruction
Finds-later t ts [] h = tt
Finds-later t ts (u ∷ us) (p, h) = (rw p, Finds-later t ts us h)

Finds-self : (ts : List SubscriberTransfer) → HasOwnInstructions ts → Finds ts ts
unfolding transfer_by_instruction
Finds-self [] h = tt
Finds-self (t ∷ ts) (apart, h) = (
  rw (transfer_by_instruction_absent ts t.instruction apart) (ground arith),
  Finds-later t ts ts (Finds-self ts h),
)

group_of-map :
    (transfers us : List SubscriberTransfer)
    → Finds transfers us
    → group_of transfers (map (λ t. t.instruction) us) ≡ us
unfolding group_of
group_of-map transfers [] h = refl
group_of-map transfers (u ∷ us) (p, h) = rw (p, group_of-map transfers us h)

group_of-append :
    (transfers : List SubscriberTransfer) (is js : List Instruction)
    → group_of transfers (is ++ js) ≡ group_of transfers is ++ group_of transfers js
unfolding group_of
group_of-append transfers [] js = refl
group_of-append transfers (i ∷ is) js = ground (arith, group_of-append transfers is js)

map_self {ℓ} : {A : Type ℓ} (xs : List A) → map (λ x. x) xs ≡ xs
map_self [] = refl
map_self (x ∷ xs) = ap (λ r. x ∷ r) (map_self xs)

module _ (send_instructions : List Call → List Instruction → Outcome) where
  send_batches-Settled :
      (transfers : List SubscriberTransfer) (batches : List (List Instruction)) (s : Sending)
      → Settled
          (group_of transfers (concat batches))
          s
          (send_batches send_instructions transfers batches s)
  unfolding send_batches group_of
  send_batches-Settled transfers [] s = Settled-nil s
  send_batches-Settled transfers (batch ∷ batches) s =
      let group = group_of transfers batch in
      let s' = send_group send_instructions (length group) group s in
      rw (group_of-append transfers batch (concat batches)) (
        Settled-append group (group_of transfers (concat batches)) s s' _
          (send_group-Settled send_instructions (length group) group s (omega arith))
          (send_batches-Settled transfers batches s'))

  module _ (wire : List Instruction → Option (List ℕ)) where
    concat-pack_instruction_batches :
        (ixs : List Instruction) → concat (pack_instruction_batches wire ixs []) ≡ ixs
    unfolding pack_instruction_batches
    concat-pack_instruction_batches ixs =
        (pack_instruction_batches_with_items_complete wire (λ ix. ix) ixs []).1 ∙ map_self ixs

    -- For transfers with instruction objects of their own, whatever the network answers: the
    -- confirmed and the failed subscribers are those of the transfers, each once and in order;
    -- `collected` is the number confirmed; and the calls that are not split (all but the groups of
    -- several that failed in simulation) submit each instruction exactly once, in order.
    pub send_batched_subscriber_instructions-Settled :
        (transfers : List SubscriberTransfer) (storage : Storage)
        → HasOwnInstructions transfers
        → Settled transfers
            (initial storage)
            (send_batched_subscriber_instructions send_instructions wire transfers storage)
    unfolding send_batched_subscriber_instructions
    send_batched_subscriber_instructions-Settled transfers storage own =
        subst
          (λ g.
            Settled g (initial storage)
              (send_batched_subscriber_instructions send_instructions wire transfers storage))
          (ap (group_of transfers)
              (concat-pack_instruction_batches (map (λ t. t.instruction) transfers))
            ∙ group_of-map transfers transfers (Finds-self transfers own))
          (send_batches-Settled transfers
            (pack_instruction_batches wire (map (λ t. t.instruction) transfers) [])
            (initial storage))
