-- ===== src/Client/Types.antt =====
-- The values that the overlays of clients/typescript/src/plugin.ts pass to `@solana/kit` and to the
-- generated client. An address is its base58 text.
use multi_delegator.Base.{ℕ, String, Option, none, some, List, str_eq, if◌then◌else◌}
use multi_delegator.Base.Int.{ℤ}

-- A `bigint | number`; `fractional` is a number that is not whole.
pub data Quantity : Type 0 where
  bigint whole : ℤ → Quantity
  fractional : Quantity

-- A `TransactionSigner`: `===` compares the objects, which `ref` stands for.
pub record Signer : Type 0 where
  pub ref : ℕ
  pub address : String

pub data AccountRole : Type 0 where
  readonly writable readonly_signer writable_signer : AccountRole

pub record AccountMeta : Type 0 where
  pub address : String
  pub role : AccountRole
  pub signer : Option Signer

pub record Instruction : Type 0 where
  pub program_address : String
  pub accounts : Option (List AccountMeta)
  pub data_bytes : List ℕ

pub data PlanStatus : Type 0 where
  sunset active : PlanStatus

-- `if (x)` of an optional text: the empty text counts as missing
abbrev pub when_given : Option String → Option String
when_given none = none
when_given (some text) = if str_eq text "" then none else some text
