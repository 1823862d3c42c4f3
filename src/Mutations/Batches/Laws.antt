-- ===== src/Mutations/Batches/Laws.antt =====
-- webapp/src/hooks/use-subscriptions-mutations.ts: what revoking several delegations has sent.
use multi_delegator.Base.{
  ℕ, suc, String, ◌≡◌, refl, sym, ap, ◌∙◌, Option, List, [], ◌∷◌, ◌++◌, map, append-nil, length,
  concat, length-map,
}
use multi_delegator.Base.Result.{Result, ok, throw, >>=-eq-ok, ok_inj}
use multi_delegator.Mutations.{connected, Services, HookState}
use mathlib.Core.Path.{subst}
use multi_delegator.Client.Types.{Instruction, Signer}
use multi_delegator.Deploy.Action.{Network, Action, ◌>>=◌, World, pure, lift}
use multi_delegator.Deploy.Adding.{Writes, >>=-Writes, Keeps-Writes, accepted_view, accepted}
use multi_delegator.Deploy.Keeping.{pure-Keeps, Keeps, go_on-eq-ok}
use multi_delegator.Mutations.Batches.{
  send_in_order, RevokeResult, all_ok, RevocableDelegation, revoke_one, revoke_multiple_delegations,
}
use multi_delegator.Mutations.Wallet.Laws.{sign_and_send-Writes}
use multi_delegator.Packer.{pack_instruction_batches}
use multi_delegator.Packer.Laws.{pack_instruction_batches_with_items_complete}
use multi_delegator.Deploy.Outcome.{OnReturn}

-- what follows adds nothing
last-Writes :
    {A B : Type 0} (act : Action A) (next : A → Action B) (items : List (List Instruction))
    → Writes items act
    → ((a : A) → Keeps accepted_view (next a))
    → Writes items (act >>= next)
last-Writes act next items first rest =
    subst (λ l. Writes l (act >>= next)) (append-nil items)
      (>>=-Writes first λ a. Keeps-Writes (rest a))

pub send_in_order-Writes :
    (net : Network) (batches : List (List Instruction)) (signer : Signer)
    → Writes batches (send_in_order net batches signer)
unfolding send_in_order
send_in_order-Writes net [] signer = Keeps-Writes (pure-Keeps [])
send_in_order-Writes net (batch ∷ batches) signer =
    >>=-Writes (sign_and_send-Writes net batch signer) λ signature.
      last-Writes _ _ batches (send_in_order-Writes net batches signer) λ rest. pure-Keeps _

-- the value that was lifted, and the rest of the chain
pub lift-eq-ok :
    {A B : Type 0} (answer : Result A) (next : A → Action B) {b : B} (w : World) {after : World}
    → (lift answer >>= next) w ≡ (ok b, after)
    → (a : A) × (answer ≡ ok a) × (next a w ≡ (ok b, after))
unfolding lift ◌>>=◌
lift-eq-ok answer next {b} w {after} returned =
    let (a, v, same, rest) = go_on-eq-ok (answer, w) next returned in
    (a, ap (λ p. p.0) same, subst (λ u. next a u ≡ (ok b, after)) (sym (ap (λ p. p.1) same)) rest)

length-all_ok :
    {A : Type 0} (answers : List (Result A)) {values : List A}
    → all_ok answers ≡ ok values
    → length values ≡ length answers
length-all_ok [] h = ap length (sym (ok_inj h))
length-all_ok (throw message ∷ answers) h = cc
length-all_ok (ok a ∷ answers) h =
    let (others, same, rest) = >>=-eq-ok (all_ok answers) (λ others. ok (a ∷ others)) h in
    ap length (sym (ok_inj rest)) ∙ ap suc (length-all_ok answers same)

map_id : {A : Type 0} (xs : List A) → map (λ x. x) xs ≡ xs
map_id [] = refl
map_id (x ∷ xs) = ap (λ t. x ∷ t) (map_id xs)

concat-pack_instruction_batches :
    (wire : List Instruction → Option (List ℕ)) (ixs : List Instruction)
    → concat (pack_instruction_batches wire ixs []) ≡ ixs
unfolding pack_instruction_batches
concat-pack_instruction_batches wire ixs =
    (pack_instruction_batches_with_items_complete wire (λ ix. ix) ixs []).1 ∙ map_id ixs

-- What a mutation has sent that returns: the instructions, each once and in order, in the
-- transactions that the network took.
abbrev pub IsSent : World → World → List Instruction → Type 0
IsSent before after instructions =
    (batches : List (List Instruction)) × (accepted after.log ≡ accepted before.log ++ batches)
    × (concat batches ≡ instructions)

module _ (net : Network) (wire : List Instruction → Option (List ℕ)) where
  -- the end of both mutations
  send_all-IsSent :
      (instructions : List Instruction) (signer : Signer) (revoked : ℕ) (result : RevokeResult)
      (w after : World)
      → (send_in_order net (pack_instruction_batches wire instructions []) signer >>= λ signatures.
            pure (record { revoked = revoked; signatures = signatures }))
          w
        ≡ (ok result, after)
      → IsSent w after instructions × (result.revoked ≡ revoked)
  unfolding ◌>>=◌ pure
  send_all-IsSent instructions signer revoked result w after returned =
      let batches = pack_instruction_batches wire instructions [] in
      let added = (send_in_order-Writes net batches signer).writes w in
      let (signatures, v, same, rest) =
        go_on-eq-ok (send_in_order net batches signer w)
          (λ signatures. pure (record { revoked = revoked; signatures = signatures })) returned in
      let here = subst (OnReturn (λ a u. accepted u.log ≡ accepted w.log ++ batches)) same added in
      (
        (
          batches,
          ap (λ p. accepted p.1.log) (sym rest) ∙ here,
          concat-pack_instruction_batches wire instructions,
        ),
        ap (λ r. r.revoked) (sym (ok_inj (ap (λ p. p.0) rest))),
      )

  module _ (services : Services) (state : HookState) where
    -- Where revoking several delegations returns, the network took, in order and each once, the
    -- revoke instruction of every delegation for the connected wallet, whose receiver is the payer of
    -- its account unless that is the wallet; and the number reported is that of the instructions.
    pub revoke_multiple_delegations_ok :
        (delegations : List RevocableDelegation) (w after : World) (result : RevokeResult)
        → revoke_multiple_delegations net services state wire delegations w ≡ (ok result, after)
        → (signer : Signer) × (program : String) × (instructions : List Instruction) × (connected
              state
            ≡ ok signer)
          × (all_ok (map (revoke_one net services state wire signer program) delegations)
              ≡ ok instructions)
          × IsSent w after instructions
          × (result.revoked ≡ length instructions)
    unfolding revoke_multiple_delegations
    revoke_multiple_delegations_ok delegations w after result returned =
        let (signer, has_signer, r1) = lift-eq-ok _ _ w returned in
        let (program, has_program, r2) = lift-eq-ok _ _ w r1 in
        let (instructions, built, r3) = lift-eq-ok _ _ w r2 in
        let (sent_all, count) = send_all-IsSent instructions signer _ result w after r3 in
        let size = length-all_ok _ built ∙ length-map _ delegations in
        (signer, program, instructions, has_signer, built, sent_all, count ∙ sym size)
