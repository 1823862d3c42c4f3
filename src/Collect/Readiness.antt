-- ===== src/Collect/Readiness.antt =====
-- webapp/src/lib/collect-utils.ts, `checkSubscriberTokenReadiness` and `filterPayableSubscribers`.
-- The part of a check behind its last `await` runs without interruption: it is a step on the storage.
pub mod Laws
pub mod Order
use multi_delegator.Base.{
  ℕ, String, Bool, true, false, not, Option, none, some, List, [], ◌∷◌, str_eq, if◌then◌else◌,
  or_else,
}
use multi_delegator.Base.Int.{ℤ, pos, ltb_ℤ, eqb_ℤ}
use multi_delegator.Base.Result.{Result, ok, ◌>>=◌}
use multi_delegator.Js.Value.{Value, field, string?, undefined, null, bool, num, str}
use multi_delegator.Js.Storage.{Storage}
use multi_delegator.Js.Decimal.{codes, template, to_string}
use multi_delegator.Collect.Types.{
  CollectableSubscriber, SubscriberPaymentFailureReason, SubscriberPaymentFailure,
  PayableSubscribersResult, ParsedTokenAccount, known_unpayable_token_state, missing_token_account,
  invalid_token_account, wrong_mint, wrong_owner, insufficient_balance, wrong_delegate,
  insufficient_delegated_amount, transfer_failed,
}
use multi_delegator.Collect.Cache.{read_cached_failure, write_cached_failure, clear_cached_failure}
use multi_delegator.Collect.Account.{parse_token_account, token_state_hash}

-- What the kit library and the RPC node answer while the checks run. `account_value` is the `value`
-- of `getAccountInfo`, where a missing account is a falsy value.
pub record Kit : Type 0 where
  pub address : String → Result String
  pub encode_address : String → List ℕ
  pub find_associated_token_pda : String → String → String → Result String
  pub get_program_derived_address : String → List (List ℕ) → Result String
  pub account_value : String → Result Value
  -- `Date.now()`
  pub now : ℤ

pub record Readiness : Type 0 where
  pub subscriber : CollectableSubscriber
  pub failure : Option SubscriberPaymentFailure

-- the text of a reason, as the cache stores it
abbrev pub reason_text : SubscriberPaymentFailureReason → String
reason_text known_unpayable_token_state = "known-unpayable-token-state"
reason_text missing_token_account = "missing-token-account"
reason_text invalid_token_account = "invalid-token-account"
reason_text wrong_mint = "wrong-mint"
reason_text wrong_owner = "wrong-owner"
reason_text insufficient_balance = "insufficient-balance"
reason_text wrong_delegate = "wrong-delegate"
reason_text insufficient_delegated_amount = "insufficient-delegated-amount"
reason_text transfer_failed = "transfer-failed"

unfoldable pub fail_readiness :
    ℤ
    → CollectableSubscriber
    → SubscriberPaymentFailureReason
    → String
    → String
    → Storage
    → Readiness × Storage
fail_readiness now subscriber reason message state_hash s = (
  record {
    subscriber = subscriber;
    failure = some (record { subscriber = subscriber; reason = reason; message = message });
  },
  write_cached_failure s subscriber (record {
    reason = reason_text reason;
    message = message;
    state_hash = state_hash;
    failed_at = now;
  }),
)

-- `Boolean(account.value)`
abbrev pub is_truthy : Value → Bool
is_truthy undefined = false
is_truthy null = false
is_truthy (bool b) = b
is_truthy (num z) = not (eqb_ℤ z (pos 0))
is_truthy (str s) = not (str_eq s "")
is_truthy _ = true

abbrev is_text : Option String → String → Bool
is_text none text = false
is_text (some s) text = str_eq s text

-- `parsed.delegate === String(subscriptionAuthority)`, where a missing delegate is `null`
abbrev is_delegated : Option String → String → Bool
is_delegated delegate authority = is_text delegate authority

-- the five tests of a parsed account, in the code's order: the first that fails
unfoldable pub token_problem :
    ParsedTokenAccount
    → ℤ
    → String
    → String
    → String
    → Option (SubscriberPaymentFailureReason × String)
token_problem parsed amount mint delegator authority =
    if not (str_eq parsed.mint mint)
    then some (wrong_mint, "Subscriber token account mint does not match the plan mint")
    else if not (str_eq parsed.owner delegator)
    then some (wrong_owner, "Subscriber token account owner does not match the subscriber")
    else if ltb_ℤ parsed.balance amount
    then some
        (insufficient_balance, "Subscriber token account balance is below the collectible amount")
    else if not (is_delegated parsed.delegate authority)
    then some
        (wrong_delegate, "Subscriber token account is not delegated to the subscription authority")
    else if ltb_ℤ parsed.delegated_amount amount
    then some (
      insufficient_delegated_amount, "Subscriber delegated amount is below the collectible amount",
    )
    else none

-- `cached?.stateHash === stateHash`
unfoldable pub is_cached_state : Option Value → String → Bool
is_cached_state none state_hash = false
is_cached_state (some cached) state_hash = is_text (string? (field cached "stateHash")) state_hash

-- `cached.message`
abbrev pub cached_message : Option Value → String
cached_message none = ""
cached_message (some cached) = or_else (string? (field cached "message")) ""

abbrev settle_problem :
    ℤ
    → CollectableSubscriber
    → String
    → Storage
    → Option (SubscriberPaymentFailureReason × String)
    → Readiness × Storage
settle_problem now subscriber state_hash s none =
    (record { subscriber = subscriber; failure = none }, clear_cached_failure s subscriber)
settle_problem now subscriber state_hash s (some (reason, message)) =
    fail_readiness now subscriber reason message state_hash s

-- the check of an account that could be parsed
unfoldable pub settle_parsed :
    ℤ
    → CollectableSubscriber
    → ParsedTokenAccount
    → String
    → String
    → String
    → Storage
    → Readiness × Storage
unfolding token_problem
settle_parsed now subscriber parsed mint delegator authority s =
    let state_hash = token_state_hash parsed subscriber.amount in
    let cached = read_cached_failure s subscriber in
    if is_cached_state cached state_hash
    then (
      record {
        subscriber = subscriber;
        failure = some (record {
          subscriber = subscriber;
          reason = known_unpayable_token_state;
          message = cached_message cached;
        });
      },
      s,
    )
    else settle_problem now subscriber state_hash s
        (token_problem parsed subscriber.amount mint delegator authority)

abbrev settle_account :
    ℤ
    → CollectableSubscriber
    → String
    → String
    → String
    → String
    → Option ParsedTokenAccount
    → Storage
    → Readiness × Storage
settle_account now subscriber ata mint delegator authority none s =
    fail_readiness now subscriber invalid_token_account
      (template ("Subscriber token account " ∷ ata ∷ " is not a parsed token account" ∷ []))
      (template ("invalid:" ∷ ata ∷ ":" ∷ to_string subscriber.amount ∷ [])) s
settle_account now subscriber ata mint delegator authority (some parsed) s =
    settle_parsed now subscriber parsed mint delegator authority s

-- what happens once the account is read
unfoldable pub settle :
    ℤ
    → CollectableSubscriber
    → String
    → String
    → String
    → String
    → Value
    → Storage
    → Readiness × Storage
unfolding settle_parsed fail_readiness
settle now subscriber ata mint delegator authority value s =
    if not (is_truthy value)
    then fail_readiness now subscriber missing_token_account
        (template ("Subscriber token account " ∷ ata ∷ " does not exist" ∷ []))
        (template ("missing:" ∷ ata ∷ ":" ∷ to_string subscriber.amount ∷ [])) s
    else settle_account now subscriber ata mint delegator authority (parse_token_account value) s

abbrev pub add_result : Readiness → PayableSubscribersResult → PayableSubscribersResult
add_result result rest = elim result.failure [
  | none ↦ record rest { payable = result.subscriber ∷ rest.payable }
  | some failure ↦ record rest { failures = failure ∷ rest.failures }
]

-- the loop over the results, which keeps their order in both lists
unfoldable pub partition : List Readiness → PayableSubscribersResult
partition [] = record { payable = []; failures = [] }
partition (result ∷ results) = add_result result (partition results)

abbrev subscription_authority_seed : String
subscription_authority_seed = "SubscriptionAuthority"

module _ (kit : Kit) (mint token_program program_address : String) where
  -- the text of the seed is ASCII, so its UTF-8 bytes are its code points
  unfoldable pub get_subscription_authority_pda : String → String → Result String
  get_subscription_authority_pda user token_mint = kit.get_program_derived_address program_address (
      codes subscription_authority_seed
      ∷ kit.encode_address user
      ∷ kit.encode_address token_mint
      ∷ [])

  -- a rejected promise leaves the storage as it is
  unfoldable pub check_subscriber_token_readiness :
      CollectableSubscriber → Storage → Result (Readiness × Storage)
  unfolding get_subscription_authority_pda
  check_subscriber_token_readiness subscriber s = do
    delegator ← kit.address subscriber.delegator
    ata ← kit.find_associated_token_pda mint delegator token_program
    authority ← get_subscription_authority_pda delegator mint
    value ← kit.account_value ata
    ok (settle kit.now subscriber ata mint delegator authority value s)

  -- the checks, completing in the order of the subscribers; a rejection rejects them all
  unfoldable pub check_all :
      List CollectableSubscriber → Storage → Result (List Readiness × Storage)
  check_all [] s = ok ([], s)
  check_all (subscriber ∷ subscribers) s = do
    (result, s') ← check_subscriber_token_readiness subscriber s
    (results, s'') ← check_all subscribers s'
    ok (result ∷ results, s'')

  unfoldable pub filter_payable_subscribers :
      List CollectableSubscriber → Storage → Result (PayableSubscribersResult × Storage)
  unfolding check_all
  filter_payable_subscribers subscribers s = do
    (results, s') ← check_all subscribers s
    ok (partition results, s')
