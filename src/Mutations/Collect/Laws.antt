-- ===== src/Mutations/Collect/Laws.antt =====
-- webapp/src/hooks/use-subscriptions-mutations.ts, `collectSubscriptionPayments`: its accounts.
use multi_delegator.Base.{
  ℕ, suc, ◌+◌, ◌≤◌, String, ◌≡◌, refl, sym, ap, ◌∙◌, ◌≢◌, Option, List, [], ◌∷◌, ◌++◌, arith, ltb,
  length, All, length-append, length-map,
}
use multi_delegator.Base.Result.{Result, ok, >>=-eq-ok, ok_inj}
use multi_delegator.Client.Types.{Instruction, when_given, Signer}
use mathlib.Core.Path.{subst}
use multi_delegator.Collect.Send
use multi_delegator.Collect.Send.Laws.{
  HasOwnInstructions, send_batched_subscriber_instructions-Settled,
}
use multi_delegator.Js.Storage.{Storage}
use multi_delegator.Collect.Types.{CollectableSubscriber, PayableSubscribersResult}
use multi_delegator.Collect.Readiness.{
  Kit, filter_payable_subscribers, partition, Readiness, check_all, add_result,
  check_subscriber_token_readiness,
}
use multi_delegator.Collect.Send.Settling.{Merge, done, left, right, Settled}
use multi_delegator.Mutations.{Services, HookState, connected, configured, token_program_of}
use multi_delegator.Mutations.Collect.{
  CollectResult, transfer_entries, send_entries, CollectParams, collected_transfer,
  first_destination, owner_of_receiver, subscription_transfer, collect_result,
  collect_subscription_payments, collect_to,
}
use multi_delegator.Collect.Send.{
  SubscriberTransfer, Outcome, Call, Sending, initial, send_batched_subscriber_instructions,
}

Merge-length {ℓ} :
    {A : Type ℓ} {xs ys zs : List A} → Merge xs ys zs → length xs + length ys ≡ length zs
Merge-length done = omega arith
Merge-length (left m) = omega (arith, Merge-length m)
Merge-length (right m) = omega (arith, Merge-length m)

length-add_result :
    (r : Readiness) (result : PayableSubscribersResult)
    → length (add_result r result).payable + length (add_result r result).failures
      ≡ suc (length result.payable + length result.failures)
length-add_result r result = ground arith

length-partition :
    (rs : List Readiness)
    → length (partition rs).payable + length (partition rs).failures ≡ length rs
unfolding partition
length-partition [] = omega arith
length-partition (r ∷ rs) = omega (arith, length-add_result r (partition rs), length-partition rs)

module _ (readiness : Kit) (mint token_program program : String) where
  length-check_all :
      (subscribers : List CollectableSubscriber) (s : Storage) (rs : List Readiness) (s' : Storage)
      → check_all readiness mint token_program program subscribers s ≡ ok (rs, s')
      → length rs ≡ length subscribers
  unfolding check_all
  length-check_all [] s rs s' h = ap (λ p. length p.0) (sym (ok_inj h))
  length-check_all (subscriber ∷ subscribers) s rs s' h =
      let ((r, s1), checked, h1) =
        >>=-eq-ok
          (check_subscriber_token_readiness readiness mint token_program program subscriber s) _
          h in
      let ((others, s2), rest, h2) =
        >>=-eq-ok (check_all readiness mint token_program program subscribers s1) _ h1 in
      ap (λ p. length p.0) (sym (ok_inj h2))
      ∙ ap suc (length-check_all subscribers s1 others s2 rest)

  length-filter_payable_subscribers :
      (subscribers : List CollectableSubscriber) (s : Storage) (checked : PayableSubscribersResult)
      (s' : Storage)
      → filter_payable_subscribers readiness mint token_program program subscribers s
        ≡ ok (checked, s')
      → length checked.payable + length checked.failures ≡ length subscribers
  unfolding filter_payable_subscribers
  length-filter_payable_subscribers subscribers s checked s' h =
      let ((rs, s1), found, h1) =
        >>=-eq-ok (check_all readiness mint token_program program subscribers s) _ h in
      ap (λ p. length p.0.payable + length p.0.failures) (sym (ok_inj h1))
      ∙ length-partition rs
      ∙ length-check_all subscribers s rs s1 found

-- every object made from here on has a number that is not below
abbrev NotBelow : ℕ → List SubscriberTransfer → Type 0
NotBelow n = All (λ t. n ≤ t.instruction.ref)

NotBelow-weaken : (m n : ℕ) (ts : List SubscriberTransfer) → m ≤ n → NotBelow n ts → NotBelow m ts
NotBelow-weaken m n [] le h = tt
NotBelow-weaken m n (t ∷ ts) le h = (omega (arith, h.0, le), NotBelow-weaken m n ts le h.1)

NotBelow-apart :
    (n : ℕ) (ts : List SubscriberTransfer)
    → NotBelow (n + 1) ts
    → All (λ u. u.instruction.ref ≢ n) ts
NotBelow-apart n [] h = tt
NotBelow-apart n (t ∷ ts) h = (λ same. omega (arith, h.0, same), NotBelow-apart n ts h.1)

-- what the entries made from `n` on are
record AreEntries (n : ℕ) (subscribers : List CollectableSubscriber) (es : List SubscriberTransfer)
    : Type 0 where
  as_many : length es ≡ length subscribers
  not_below : NotBelow n es
  own : HasOwnInstructions es

AreEntries-cons :
    (n : ℕ) (subscriber : CollectableSubscriber) (subscribers : List CollectableSubscriber)
    (entry : SubscriberTransfer) (es : List SubscriberTransfer)
    → entry.instruction.ref ≡ n
    → AreEntries (n + 1) subscribers es
    → AreEntries n (subscriber ∷ subscribers) (entry ∷ es)
AreEntries-cons n subscriber subscribers entry es numbered h = record {
  as_many = ap suc h.as_many;
  not_below = (omega (arith, numbered), NotBelow-weaken n (n + 1) es (omega arith) h.not_below);
  own = (rw numbered (NotBelow-apart n es h.not_below), h.own);
}

module _ (services : Services) (state : HookState) (readiness : Kit)
    (serialize : Instruction → List ℕ) (send_first : Instruction → Result String)
    (send_instructions : List Call → List Send.Instruction → Outcome)
    (wire : List Send.Instruction → Option (List ℕ)) where
  transfer_entries-AreEntries :
      (build : CollectableSubscriber → Result Instruction) (n : ℕ)
      (subscribers : List CollectableSubscriber) (es : List SubscriberTransfer)
      → transfer_entries services state readiness serialize send_first send_instructions wire build
          n subscribers
        ≡ ok es
      → AreEntries n subscribers es
  unfolding transfer_entries
  transfer_entries-AreEntries build n [] es h =
      subst (AreEntries n []) (ok_inj h) (record { as_many = refl; not_below = tt; own = tt })
  transfer_entries-AreEntries build n (subscriber ∷ subscribers) es h =
      let (ix, built, h1) = >>=-eq-ok (build subscriber) _ h in
      let (rest, made, h2) =
        >>=-eq-ok
          (transfer_entries services state readiness serialize send_first send_instructions wire
            build (n + 1) subscribers)
          _ h1 in
      subst (AreEntries n (subscriber ∷ subscribers)) (ok_inj h2) (
        AreEntries-cons n subscriber subscribers _ rest refl
          (transfer_entries-AreEntries build (n + 1) subscribers rest made))

  -- the numbers of a result add up
  abbrev pub IsBalanced : CollectResult → Type 0
  IsBalanced result =
      (result.collected + length result.failures ≡ result.total)
      × (length result.transfers ≡ result.collected)
      × (result.partial ≡ ltb result.collected result.total)

  collect_result-IsBalanced :
      (checked : PayableSubscribersResult) (total : ℕ) (signature : String)
      (es : List SubscriberTransfer) (s : Storage) (sending : Sending)
      → length es + length checked.failures ≡ total
      → Settled es (initial s) sending
      → IsBalanced (
          collect_result services state readiness serialize send_first send_instructions wire
            checked total signature sending.result)
  collect_result-IsBalanced checked total signature es s sending sum settled =
      let confirmed = ap length settled.confirmed_eq in
      let failures = ap length settled.failures_eq in
      let merged = Merge-length settled.merged in
      let confirmed_size = length-map (λ c. c.subscriber) settled.new_confirmed in
      let failures_size = length-map (λ f. f.subscriber) settled.new_failures in
      let group_size = length-map (λ t. t.subscriber) es in
      let balance : sending.result.collected + length (checked.failures ++ sending.result.failures)
          ≡ total =
        omega (
          arith,
          sum,
          confirmed,
          failures,
          merged,
          confirmed_size,
          failures_size,
          group_size,
          settled.collected_eq,
          length-append checked.failures sending.result.failures,
        ) in
      (
        balance,
        length-map collected_transfer sending.result.confirmed
            ∙ omega (arith, confirmed, settled.collected_eq),
        ground (arith, balance),
      )

  send_entries-IsBalanced :
      (create_ata : Instruction) (checked : PayableSubscribersResult) (total : ℕ)
      (es : List SubscriberTransfer) (s s' : Storage) (result : CollectResult)
      → HasOwnInstructions es
      → length es + length checked.failures ≡ total
      → send_entries services state readiness serialize send_first send_instructions wire create_ata
          checked total es s
        ≡ ok (result, s')
      → IsBalanced result × (result.total ≡ total)
  unfolding send_entries
  send_entries-IsBalanced create_ata checked total [] s s' result own sum h =
      subst (λ r. IsBalanced r × (r.total ≡ total)) (ap (λ p. p.0) (ok_inj h))
        ((omega (arith, sum), refl, ground (arith, sum)), refl)
  send_entries-IsBalanced create_ata checked total (e ∷ es) s s' result own sum h =
      let (signature, sent_first, h1) = >>=-eq-ok (send_first create_ata) _ h in
      let sending = send_batched_subscriber_instructions send_instructions wire (e ∷ es) s in
      let settled =
        send_batched_subscriber_instructions-Settled send_instructions wire (e ∷ es) s own in
      subst (λ r. IsBalanced r × (r.total ≡ total)) (ap (λ p. p.0) (ok_inj h1))
        (collect_result-IsBalanced checked total signature (e ∷ es) s sending sum settled, refl)

  collect_to-IsBalanced :
      (signer : Signer) (program mint token_program plan_pda owner receiver_ata : String)
      (subscribers : List CollectableSubscriber) (s s' : Storage) (result : CollectResult)
      → collect_to services state readiness serialize send_first send_instructions wire signer
          program mint token_program plan_pda owner receiver_ata subscribers s
        ≡ ok (result, s')
      → IsBalanced result × (result.total ≡ length subscribers)
  unfolding collect_to
  collect_to-IsBalanced signer program mint token_program plan_pda owner receiver_ata subscribers s
        s' result h =
      let build =
        subscription_transfer services state readiness signer program mint token_program plan_pda
          receiver_ata in
      let create = services.create_ata receiver_ata mint owner signer token_program in
      let ((checked, s1), has_checked, h1) =
        >>=-eq-ok (filter_payable_subscribers readiness mint token_program program subscribers s) _
          h in
      let (entries, made, h2) =
        >>=-eq-ok
          (transfer_entries services state readiness serialize send_first send_instructions wire
            build 0 checked.payable)
          _ h1 in
      let are = transfer_entries-AreEntries build 0 checked.payable entries made in
      let counted =
        length-filter_payable_subscribers readiness mint token_program program subscribers s checked
          s1 has_checked in
      send_entries-IsBalanced create checked (length subscribers) entries s1 s' result are.own
        (omega (arith, are.as_many, counted)) h2

  -- Where collecting for a plan returns, every subscriber that was listed is either collected or
  -- reported as a failure: the two counts add up to the total, which is the number of subscribers; a
  -- transfer is listed for each one collected; and the result is partial exactly when some are missing.
  pub collect_subscription_payments-IsBalanced :
      (params : CollectParams) (s s' : Storage) (result : CollectResult)
      → collect_subscription_payments services state readiness serialize send_first
          send_instructions wire params s
        ≡ ok (result, s')
      → IsBalanced result × (result.total ≡ length params.subscribers)
  unfolding collect_subscription_payments
  collect_subscription_payments-IsBalanced params s s' result h =
      let (signer, has_signer, h1) = >>=-eq-ok (connected state) _ h in
      let (program, has_program, h2) = >>=-eq-ok (configured state) _ h1 in
      let (mint, has_mint, h3) = >>=-eq-ok (services.check_address params.mint) _ h2 in
      let (token_program, has_token_program, h4) =
        >>=-eq-ok (token_program_of services state mint) _ h3 in
      let (plan_pda, has_plan, h5) = >>=-eq-ok (services.check_address params.plan_address) _ h4 in
      let (owner, has_owner, h6) =
        >>=-eq-ok
          (owner_of_receiver services.check_address signer.address
            (when_given (first_destination params.destinations)))
          _ h5 in
      let (receiver_ata, has_ata, h7) =
        >>=-eq-ok (services.kit.find_associated_token_pda mint owner token_program) _ h6 in
      collect_to-IsBalanced signer program mint token_program plan_pda owner receiver_ata
        params.subscribers s s' result h7
