-- ===== src/Client/Accounts.antt =====
-- clients/typescript/src/accounts: the program accounts fetched by owner and decoded by their first
-- byte. `F`, `R`, `S` and `P` are the generated account types; their decoders, the values of the
-- generated enum `AccountDiscriminator` and the RPC are `AccountKit`.
use multi_delegator.Base.{
  ℕ, String, Bool, false, Option, none, some, List, [], ◌∷◌, ◌==◌, if◌then◌else◌, or_else,
  get_elem?,
}
use multi_delegator.Base.Result.{Result, ok, ◌>>=◌}

-- an account of `getProgramAccounts`, with its base64 text
pub record RawProgramAccount : Type 0 where
  pub pubkey : String
  pub base64_data : String
  pub executable : Bool
  pub lamports : ℕ
  pub space : ℕ

pub record EncodedAccount : Type 0 where
  pub address : String
  pub data_bytes : List ℕ
  pub executable : Bool
  pub lamports : ℕ
  pub program_address : String
  pub space : ℕ

pub data Filter : Type 0 where
  data_size : ℕ → Filter
  memcmp : (base58 : String) (offset : ℕ) → Filter

abbrev pub discriminator_offset : ℕ
discriminator_offset = 0

abbrev pub delegator_offset : ℕ
delegator_offset = 3

abbrev pub delegatee_offset : ℕ
delegatee_offset = 35

abbrev pub plan_size : ℕ
plan_size = 491

abbrev pub subscription_size : ℕ
subscription_size = 155

abbrev pub plan_owner_offset : ℕ
plan_owner_offset = 1

pub record AccountKit (F R S P : Type 0) : Type 0 where
  pub subscriptions_program_address : String
  pub fixed_delegation : ℕ
  pub recurring_delegation : ℕ
  pub subscription_delegation : ℕ
  pub base64_encode : String → Result (List ℕ)
  pub decode_fixed_delegation : EncodedAccount → Result F
  pub decode_recurring_delegation : EncodedAccount → Result R
  pub decode_subscription_delegation : EncodedAccount → Result S
  pub decode_plan : EncodedAccount → Result P
  pub get_program_accounts : String → List Filter → Result (List RawProgramAccount)

pub data Delegation (F R S : Type 0) : Type 0 where
  fixed : (address : String) → F → Delegation F R S
  recurring : (address : String) → R → Delegation F R S
  subscription : (address : String) → S → Delegation F R S

pub record WithAddress (P : Type 0) : Type 0 where
  pub address : String
  pub value : P

module _ {F R S P : Type 0} (kit : AccountKit F R S P) where
  unfoldable pub to_encoded_account : RawProgramAccount → String → Result EncodedAccount
  to_encoded_account raw program_address = do
    bytes ← kit.base64_encode raw.base64_data
    ok (record {
      address = raw.pubkey;
      data_bytes = bytes;
      executable = raw.executable;
      lamports = raw.lamports;
      program_address = program_address;
      space = raw.space;
    })

  -- `===` of a byte that may be missing
  abbrev is_kind : Option ℕ → ℕ → Bool
  is_kind none kind = false
  is_kind (some byte) kind = byte == kind

  -- the account decoded as its discriminator `kind` says; none where that is unknown
  unfoldable pub decode_as : Option ℕ → String → EncodedAccount → Result (Option (Delegation F R S))
  decode_as kind pubkey encoded =
      if is_kind kind kit.fixed_delegation
      then kit.decode_fixed_delegation encoded >>= (λ decoded. ok (some (fixed pubkey decoded)))
      else if is_kind kind kit.recurring_delegation
      then kit.decode_recurring_delegation encoded
        >>= (λ decoded. ok (some (recurring pubkey decoded)))
      else if is_kind kind kit.subscription_delegation
      then kit.decode_subscription_delegation encoded
        >>= (λ decoded. ok (some (subscription pubkey decoded)))
      else ok none

  unfoldable pub decode_delegation_account :
      RawProgramAccount → String → Result (Option (Delegation F R S))
  decode_delegation_account raw program_address = do
    encoded ← to_encoded_account raw program_address
    decode_as (get_elem? encoded.data_bytes discriminator_offset) raw.pubkey encoded

  abbrev kept : Option (Delegation F R S) → List (Delegation F R S) → List (Delegation F R S)
  kept none rest = rest
  kept (some delegation) rest = delegation ∷ rest

  -- `.map(decode).filter(d => d !== null)`
  unfoldable pub decode_all : List RawProgramAccount → String → Result (List (Delegation F R S))
  decode_all [] program_address = ok []
  decode_all (raw ∷ raws) program_address = do
    decoded ← decode_delegation_account raw program_address
    rest ← decode_all raws program_address
    ok (kept decoded rest)

  unfoldable pub fetch_delegations_by_offset :
      String → ℕ → Option String → Result (List (Delegation F R S))
  unfolding decode_all
  fetch_delegations_by_offset wallet offset program_address = do
    let prog_addr = or_else program_address kit.subscriptions_program_address
    response ← kit.get_program_accounts prog_addr (memcmp wallet offset ∷ [])
    decode_all response prog_addr

  unfoldable pub fetch_delegations_by_delegator :
      String → Option String → Result (List (Delegation F R S))
  fetch_delegations_by_delegator wallet program_address =
      fetch_delegations_by_offset wallet delegator_offset program_address

  unfoldable pub fetch_delegations_by_delegatee :
      String → Option String → Result (List (Delegation F R S))
  fetch_delegations_by_delegatee wallet program_address =
      fetch_delegations_by_offset wallet delegatee_offset program_address

  -- each account decoded, in order
  abbrev decode_each :
      {A : Type 0}
      → (EncodedAccount → Result A)
      → List RawProgramAccount
      → String
      → Result (List (WithAddress A))
  decode_each decode [] program_address = ok []
  decode_each decode (raw ∷ raws) program_address = do
    encoded ← to_encoded_account raw program_address
    decoded ← decode encoded
    rest ← decode_each decode raws program_address
    ok (record { address = raw.pubkey; value = decoded } ∷ rest)

  unfoldable pub fetch_plans_for_owner : String → Option String → Result (List (WithAddress P))
  fetch_plans_for_owner owner program_address = do
    let prog_addr = or_else program_address kit.subscriptions_program_address
    response ←
        kit.get_program_accounts prog_addr
          (data_size plan_size ∷ memcmp owner plan_owner_offset ∷ [])
    decode_each kit.decode_plan response prog_addr

  unfoldable pub fetch_subscriptions_for_user :
      String → Option String → Result (List (WithAddress S))
  fetch_subscriptions_for_user user program_address = do
    let prog_addr = or_else program_address kit.subscriptions_program_address
    response ←
        kit.get_program_accounts prog_addr
          (data_size subscription_size ∷ memcmp user delegator_offset ∷ [])
    decode_each kit.decode_subscription_delegation response prog_addr
