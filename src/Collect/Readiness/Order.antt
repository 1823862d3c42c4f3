-- ===== src/Collect/Readiness/Order.antt =====
-- Checks of subscribers with different cache keys do not disturb one another, in whatever order they
-- complete.
use multi_delegator.Base.{
  String, ◌≡◌, refl, ◌≢◌, inl, inr, false, Option, none, some, arith, str_eq, eq_iff, Bool-cases,
  Option-cases,
}
use multi_delegator.Base.Int.{ℤ}
use multi_delegator.Collect.Readiness.{
  Readiness, fail_readiness, is_truthy, is_cached_state, settle_parsed, settle, settle_problem,
}
use multi_delegator.Collect.Account.{parse_token_account, token_state_hash}
use multi_delegator.Collect.Types.{
  CollectableSubscriber, SubscriberPaymentFailureReason, ParsedTokenAccount, missing_token_account,
  invalid_token_account,
}
use multi_delegator.Collect.Cache.{cache_key, read_cached_failure}
use multi_delegator.Collect.Cache.Laws.{
  IsUsable, read_cached_failure-write_cached_failure, read_cached_failure-clear_cached_failure,
}
use multi_delegator.Js.Value.{Value}
use multi_delegator.Js.Storage.{Storage}

-- The storage that a check leaves reads as before for every subscriber with another cache key.
module _ (s : Storage) (subscriber other : CollectableSubscriber) (usable : IsUsable s)
    (apart : cache_key subscriber ≢ cache_key other) where
  keys_differ : str_eq (cache_key subscriber) (cache_key other) ≡ false
  keys_differ = ground (arith, eq_iff (cache_key subscriber) (cache_key other))

  abbrev IsFramed : Readiness × Storage → Type 0
  IsFramed result = read_cached_failure result.1 other ≡ read_cached_failure s other

  fail_readiness-IsFramed :
      (now : ℤ) (reason : SubscriberPaymentFailureReason) (message state_hash : String)
      → IsFramed (fail_readiness now subscriber reason message state_hash s)
  unfolding fail_readiness
  fail_readiness-IsFramed now reason message state_hash =
      rw (read_cached_failure-write_cached_failure s subscriber other _ usable) (rw keys_differ)

  settle_problem-IsFramed :
      (now : ℤ) (state_hash : String) (problem : Option (SubscriberPaymentFailureReason × String))
      → IsFramed (settle_problem now subscriber state_hash s problem)
  settle_problem-IsFramed now state_hash none =
      rw
        (read_cached_failure-clear_cached_failure s subscriber other usable.is_available
          usable.is_writable)
        (rw keys_differ)
  settle_problem-IsFramed now state_hash (some (reason, message)) =
      fail_readiness-IsFramed now reason message state_hash

  settle_parsed-IsFramed :
      (now : ℤ) (parsed : ParsedTokenAccount) (mint delegator authority : String)
      → IsFramed (settle_parsed now subscriber parsed mint delegator authority s)
  unfolding settle_parsed
  settle_parsed-IsFramed now parsed mint delegator authority =
      elim (Bool-cases (
        is_cached_state (read_cached_failure s subscriber)
          (token_state_hash parsed subscriber.amount))) [
            | inl cached ↦ rw cached
            | inr fresh ↦ rw fresh (settle_problem-IsFramed now _ _)
          ]

  settle-IsFramed :
      (now : ℤ) (ata mint delegator authority : String) (value : Value)
      → IsFramed (settle now subscriber ata mint delegator authority value s)
  unfolding settle
  settle-IsFramed now ata mint delegator authority value = elim (Bool-cases (is_truthy value)) [
    | inr missing ↦ rw missing (fail_readiness-IsFramed now missing_token_account _ _)
    | inl there ↦ elim (Option-cases (parse_token_account value)) [
      | inl invalid ↦ rw (there, invalid) (fail_readiness-IsFramed now invalid_token_account _ _)
      | inr (parsed, e) ↦ rw (there, e) (settle_parsed-IsFramed now parsed mint delegator authority)
    ]
  ]

settle_problem_local :
    (now : ℤ) (subscriber : CollectableSubscriber) (state_hash : String)
    (problem : Option (SubscriberPaymentFailureReason × String)) (s s' : Storage)
    → (settle_problem now subscriber state_hash s problem).0
      ≡ (settle_problem now subscriber state_hash s' problem).0
unfolding fail_readiness
settle_problem_local now subscriber state_hash none s s' = refl
settle_problem_local now subscriber state_hash (some (reason, message)) s s' = refl

-- What a check reports depends on the storage only through the subscriber's cached failure.
settle_local :
    (now : ℤ) (subscriber : CollectableSubscriber) (ata mint delegator authority : String)
    (value : Value) (s s' : Storage)
    → read_cached_failure s subscriber ≡ read_cached_failure s' subscriber
    → (settle now subscriber ata mint delegator authority value s).0
      ≡ (settle now subscriber ata mint delegator authority value s').0
unfolding settle settle_parsed fail_readiness
settle_local now subscriber ata mint delegator authority value s s' e =
    elim (Bool-cases (is_truthy value)) [
      | inr missing ↦ rw missing
      | inl there ↦ elim (Option-cases (parse_token_account value)) [
        | inl invalid ↦ rw (there, invalid)
        | inr (parsed, p) ↦
            elim (Bool-cases (
              is_cached_state (read_cached_failure s' subscriber)
                (token_state_hash parsed subscriber.amount))) [
                  | inl cached ↦ rw (there, p, e, cached)
                  | inr fresh ↦
                      rw (there, p, e, fresh) (settle_problem_local now subscriber _ _ s s')
                ]
      ]
    ]

-- In a usable storage, what a check reports is the same whether or not the check of a subscriber with
-- another cache key, whose account may be in any state, has completed before it.
pub settle_after_other :
    (now : ℤ) (mint : String) (s : Storage) (subscriber other : CollectableSubscriber)
    (ata delegator authority other_ata other_delegator other_authority : String)
    (value other_value : Value)
    → IsUsable s
    → cache_key other ≢ cache_key subscriber
    → (settle now subscriber ata mint delegator authority value
        (settle now other other_ata mint other_delegator other_authority other_value s).1).0
      ≡ (settle now subscriber ata mint delegator authority value s).0
settle_after_other now mint s subscriber other ata delegator authority other_ata other_delegator
      other_authority value other_value u apart =
    settle_local now subscriber ata mint delegator authority value _ s (
      settle-IsFramed s other subscriber u apart now other_ata mint other_delegator other_authority
        other_value)
