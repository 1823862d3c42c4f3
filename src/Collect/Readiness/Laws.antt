-- ===== src/Collect/Readiness/Laws.antt =====
-- When a check reports no failure, and what the cache of failures changes in a second check.
use multi_delegator.Base.{
  String, ◌≡◌, refl, ap, ◌↔◌, inl, inr, true, false, Option, none, some, arith, eq_iff, eq_refl,
  Bool-cases, Option-cases,
}
use multi_delegator.Base.Int.{ℤ, ◌≤ℤ◌}
use multi_delegator.Collect.Readiness.{
  is_truthy, token_problem, is_cached_state, settle, is_text, fail_readiness, settle_parsed,
  settle_problem, reason_text, cached_message,
}
use multi_delegator.Collect.Types.{
  CollectableSubscriber, ParsedTokenAccount, SubscriberPaymentFailureReason,
  known_unpayable_token_state,
}
use multi_delegator.Js.Value.{Value, field, string?}
use multi_delegator.Js.Storage.{Storage}
use multi_delegator.Collect.Account.{parse_token_account, token_state_hash}
use multi_delegator.Collect.Cache.{read_cached_failure, CachedFailure, entry_of}
use multi_delegator.Collect.Cache.Laws.{IsUsable, read_cached_failure_written}

-- The token account pays the amount: it is the subscriber's account for the mint, holds the amount,
-- and has delegated the amount to the subscription authority.
pub record IsPayable (parsed : ParsedTokenAccount) (amount : ℤ) (mint delegator authority : String)
    : Type 0 where
  pub mint_matches : parsed.mint ≡ mint
  pub owner_matches : parsed.owner ≡ delegator
  pub balance_covers : amount ≤ℤ parsed.balance
  pub delegate_matches : parsed.delegate ≡ some authority
  pub delegated_covers : amount ≤ℤ parsed.delegated_amount

is_text→eq : (o : Option String) (t : String) → is_text o t ≡ true → o ≡ some t
is_text→eq none t h = cc
is_text→eq (some s) t h = ap some ((eq_iff s t).0 h)

token_problem_sound :
    (parsed : ParsedTokenAccount) (amount : ℤ) (mint delegator authority : String)
    → token_problem parsed amount mint delegator authority ≡ none
    → IsPayable parsed amount mint delegator authority
unfolding token_problem
token_problem_sound parsed amount mint delegator authority h = record {
  mint_matches = ground (arith, eq_iff parsed.mint mint);
  owner_matches = ground (arith, eq_iff parsed.owner delegator);
  balance_covers = ground arith;
  delegate_matches = is_text→eq parsed.delegate authority (ground arith);
  delegated_covers = ground arith;
}

token_problem_complete :
    (parsed : ParsedTokenAccount) (amount : ℤ) (mint delegator authority : String)
    → IsPayable parsed amount mint delegator authority
    → token_problem parsed amount mint delegator authority ≡ none
unfolding token_problem
token_problem_complete parsed amount mint delegator authority p = ground (
  arith,
  eq_iff parsed.mint mint,
  eq_iff parsed.owner delegator,
  p.delegate_matches,
  eq_refl authority,
  p.balance_covers,
  p.delegated_covers,
)

settle_problem-none :
    (now : ℤ) (subscriber : CollectableSubscriber) (state_hash : String) (s : Storage)
    (problem : Option (SubscriberPaymentFailureReason × String))
    → (settle_problem now subscriber state_hash s problem).0.failure ≡ none
    → problem ≡ none
unfolding fail_readiness
settle_problem-none now subscriber state_hash s none h = refl
settle_problem-none now subscriber state_hash s (some (reason, message)) h = cc

settle_parsed_sound :
    (now : ℤ) (subscriber : CollectableSubscriber) (parsed : ParsedTokenAccount)
    (mint delegator authority : String) (s : Storage)
    → (settle_parsed now subscriber parsed mint delegator authority s).0.failure ≡ none
    → IsPayable parsed subscriber.amount mint delegator authority
      × (is_cached_state
            (read_cached_failure s subscriber)
            (token_state_hash parsed subscriber.amount)
          ≡ false)
unfolding settle_parsed
settle_parsed_sound now subscriber parsed mint delegator authority s h =
    elim (Bool-cases (
      is_cached_state (read_cached_failure s subscriber)
        (token_state_hash parsed subscriber.amount))) [
          | inl cached ↦ absurd (cc (rw cached at h))
          | inr fresh ↦ (
            token_problem_sound parsed subscriber.amount mint delegator authority
                (settle_problem-none now subscriber _ s _ (rw fresh at h)),
            fresh,
          )
        ]

module _ (now : ℤ) (subscriber : CollectableSubscriber) (ata mint delegator authority : String)
    (value : Value) (s : Storage) where
  settle_sound :
      (settle now subscriber ata mint delegator authority value s).0.failure ≡ none
      → (is_truthy value ≡ true)
        × ((parsed : ParsedTokenAccount) × (parse_token_account value ≡ some parsed)
            × IsPayable parsed subscriber.amount mint delegator authority
            × (is_cached_state
                  (read_cached_failure s subscriber)
                  (token_state_hash parsed subscriber.amount)
                ≡ false))
  unfolding settle fail_readiness
  settle_sound h = elim (Bool-cases (is_truthy value)) [
    | inr missing ↦ absurd (cc (rw missing at h))
    | inl there ↦ elim (Option-cases (parse_token_account value)) [
      | inl invalid ↦ absurd (cc (rw (there, invalid) at h))
      | inr (parsed, e) ↦
          let (payable, fresh) =
            settle_parsed_sound now subscriber parsed mint delegator authority s
              (rw (there, e) at h) in
          (there, (parsed, e, payable, fresh))
    ]
  ]

  settle_complete :
      is_truthy value ≡ true
      → (parsed : ParsedTokenAccount) → parse_token_account value ≡ some parsed
      → IsPayable parsed subscriber.amount mint delegator authority
      → is_cached_state
          (read_cached_failure s subscriber)
          (token_state_hash parsed subscriber.amount)
        ≡ false
      → (settle now subscriber ata mint delegator authority value s).0.failure ≡ none
  unfolding settle settle_parsed
  settle_complete there parsed e payable fresh = rw (
    there,
    e,
    fresh,
    token_problem_complete parsed subscriber.amount mint delegator authority payable,
  )

-- A check reports no failure exactly when the account is there, can be parsed, pays the amount, and
-- is not in a state for which a failure is cached.
pub settle-no-failure_iff :
    (now : ℤ) (subscriber : CollectableSubscriber) (ata mint delegator authority : String)
    (value : Value) (s : Storage)
    → ((settle now subscriber ata mint delegator authority value s).0.failure ≡ none) ↔ (
        (is_truthy value ≡ true)
        × ((parsed : ParsedTokenAccount) × (parse_token_account value ≡ some parsed)
            × IsPayable parsed subscriber.amount mint delegator authority
            × (is_cached_state
                  (read_cached_failure s subscriber)
                  (token_state_hash parsed subscriber.amount)
                ≡ false)))
settle-no-failure_iff now subscriber ata mint delegator authority value s = (
  settle_sound now subscriber ata mint delegator authority value s,
  λ found.
      settle_complete now subscriber ata mint delegator authority value s found.0 found.1.0
        found.1.1 found.1.2 found.1.3,
)

is_cached_state-entry_of :
    (f : CachedFailure) → is_cached_state (some (entry_of f)) f.state_hash ≡ true
unfolding is_cached_state field string?
is_cached_state-entry_of f = eq_refl f.state_hash

cached_message-entry_of : (f : CachedFailure) → cached_message (some (entry_of f)) ≡ f.message
unfolding field string?
cached_message-entry_of f = refl

-- A parsed account that is refused by a check in a usable storage is refused by the next check of the
-- same subscriber and account without a test, with the same message, and the storage stays as it is.
pub settle_parsed_again :
    (now later : ℤ) (subscriber : CollectableSubscriber) (parsed : ParsedTokenAccount)
    (mint delegator authority : String) (s : Storage) (reason : SubscriberPaymentFailureReason)
    (message : String)
    → IsUsable s
    → is_cached_state (read_cached_failure s subscriber) (token_state_hash parsed subscriber.amount)
      ≡ false
    → token_problem parsed subscriber.amount mint delegator authority ≡ some (reason, message)
    → let s' = (settle_parsed now subscriber parsed mint delegator authority s).1 in
      settle_parsed later subscriber parsed mint delegator authority s' ≡ (
        record {
          subscriber = subscriber;
          failure = some (record {
            subscriber = subscriber;
            reason = known_unpayable_token_state;
            message = message;
          });
        },
        s',
      )
unfolding settle_parsed fail_readiness
settle_parsed_again now later subscriber parsed mint delegator authority s reason message u fresh
      problem =
    let f : CachedFailure = record {
      reason = reason_text reason;
      message = message;
      state_hash = token_state_hash parsed subscriber.amount;
      failed_at = now;
    } in
    rw (fresh, problem)
      (rw (
        read_cached_failure_written s subscriber f u,
        is_cached_state-entry_of f,
        cached_message-entry_of f,
      ))
