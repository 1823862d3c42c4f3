-- ===== src/Collect/Types.antt =====
-- The records of webapp/src/lib/collect-utils.ts. Addresses and signatures are texts.
use multi_delegator.Base.{String, Option, List}
use multi_delegator.Base.Int.{ℤ}

pub record EligibleSubscriber : Type 0 where
  pub subscription_address : String
  pub delegator : String
  pub collect_amount : ℤ

pub record PlanTermsFingerprint : Type 0 where
  pub amount : ℤ
  pub period_hours : ℤ
  pub created_at : ℤ

pub record PlanSubscriberForCollection : Type 0 where
  pub subscription_address : String
  pub delegator : String
  pub terms : PlanTermsFingerprint
  pub amount_pulled_in_period : ℤ
  pub current_period_start_ts : ℤ
  pub expires_at_ts : ℤ

pub record CollectableSubscriber : Type 0 where
  pub subscription_address : String
  pub delegator : String
  pub amount : ℤ

pub data SubscriberPaymentFailureReason : Type 0 where
  known_unpayable_token_state missing_token_account invalid_token_account wrong_mint wrong_owner :
      SubscriberPaymentFailureReason
  insufficient_balance wrong_delegate insufficient_delegated_amount transfer_failed :
      SubscriberPaymentFailureReason

pub record SubscriberPaymentFailure : Type 0 where
  pub subscriber : CollectableSubscriber
  pub reason : SubscriberPaymentFailureReason
  pub message : String

pub record PayableSubscribersResult : Type 0 where
  pub payable : List CollectableSubscriber
  pub failures : List SubscriberPaymentFailure

pub record ParsedTokenAccount : Type 0 where
  pub mint : String
  pub owner : String
  pub balance : ℤ
  pub delegate : Option String
  pub delegated_amount : ℤ
