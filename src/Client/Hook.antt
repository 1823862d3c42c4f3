-- ===== src/Client/Hook.antt =====
-- clients/typescript/src/transfer-hook.ts: the accounts that a hooked Token-2022 transfer forwards.
-- What the kit library and the RPC node answer is `HookKit`.

pub mod Laws
use multi_delegator.Base.{
  ℕ, zero, suc, ◌+◌, ◌-◌, String, Option, none, some, List, [], ◌∷◌, ◌++◌, str_eq, ltb, ◌==◌,
  if◌then◌else◌, or_else, get_elem?, drop, slice,
}
use multi_delegator.Base.Result.{Result, ok, throw, ◌>>=◌}
use multi_delegator.Client.Types.{AccountMeta, readonly, Quantity}
use multi_delegator.Client.Overlay.{plain_meta}
use multi_delegator.Client.Delegations.{required}
use multi_delegator.Client.HookMetas.{
  RawMeta, address_len, pda_program_index_offset, role_for, execute_instruction_data, read_metas,
}

abbrev pub default_address : String
default_address = "11111111111111111111111111111111"

pub data MintExtension : Type 0 where
  transfer_hook : (program_id : String) → MintExtension
  other_extension : MintExtension

pub record ResolveTransferHookArgs : Type 0 where
  pub amount : Quantity
  pub authority : String
  pub destination : String
  pub mint : String
  pub source : String
  pub token_program : String
  pub transfer_hook_accounts : Option (List AccountMeta)

-- `fetch_encoded_account` answers the data of an account that exists; `fetch_mint` the extensions.
pub record HookKit : Type 0 where
  pub token_2022_program_address : String
  pub encode_address : String → Result (List ℕ)
  pub decode_address : List ℕ → Result String
  pub get_program_derived_address :
      (program_address : String) (seeds : List (List ℕ)) → Result String
  pub fetch_encoded_account : String → Result (Option (List ℕ))
  pub fetch_mint : String → Result (Option (List MintExtension))
  -- the bytes of the seed "extra-account-metas"
  pub extra_account_metas_seed : List ℕ

-- `bytes.subarray(index, index + length)`, where an index that is missing leaves nothing
abbrev pub sub_bytes : Option ℕ → Option ℕ → List ℕ → List ℕ
sub_bytes (some index) (some count) bytes = slice index (index + count) bytes
sub_bytes _ _ bytes = []

-- `previous[index].address`: a TypeError where there is none
abbrev pub address_at : List AccountMeta → Option ℕ → Result String
address_at previous none = throw "Cannot read properties of undefined (reading 'address')"
address_at previous (some index) =
    required (get_elem? previous index) "Cannot read properties of undefined (reading 'address')"
    >>= λ meta. ok meta.address

-- what one turn of the loop of `unpackSeeds` does: it ends, or it adds a seed and moves on, or it
-- adds a seed and, the position not being a number any more, ends
pub data SeedStep : Type 0 where
  finish : SeedStep
  advance : (seed : List ℕ) (width : ℕ) → SeedStep
  last : (seed : List ℕ) → SeedStep

-- `extensions.find(extension => extension.__kind === 'TransferHook')`, unless its program is unset
unfoldable pub hook_of : List MintExtension → Option String
hook_of [] = none
hook_of (other_extension ∷ extensions) = hook_of extensions
hook_of (transfer_hook program_id ∷ extensions) =
    if str_eq program_id default_address then none else some program_id

abbrev pub base_accounts : ResolveTransferHookArgs → String → List AccountMeta
base_accounts args validation_pda =
    plain_meta args.source readonly
    ∷ plain_meta args.mint readonly
    ∷ plain_meta args.destination readonly
    ∷ plain_meta args.authority readonly
    ∷ plain_meta validation_pda readonly
    ∷ []

-- the seeds after a turn at position `i`, where `more` gives those from a later position on
abbrev pub follow : (more : ℕ → Result (List (List ℕ))) → ℕ → SeedStep → Result (List (List ℕ))
follow more i finish = ok []
follow more i (last seed) = ok (seed ∷ [])
follow more i (advance seed width) = more (i + width) >>= λ seeds. ok (seed ∷ seeds)

module _ (kit : HookKit) where
  unfoldable pub fetch_data : String → Result (List ℕ)
  fetch_data address = do
    account ← kit.fetch_encoded_account address
    required account "transfer hook: referenced account not found"

  module _ (previous : List AccountMeta) (instruction_data : List ℕ) where
    abbrev literal_seed : Option ℕ → List ℕ → SeedStep
    literal_seed none rest = last []
    literal_seed (some count) rest = advance (slice 1 (1 + count) rest) (2 + count)

    abbrev pub address_seed : List ℕ → Result SeedStep
    address_seed rest = do
      address ← address_at previous (get_elem? rest 0)
      seed ← kit.encode_address address
      ok (advance seed 2)

    abbrev pub account_data_seed : List ℕ → Result SeedStep
    account_data_seed rest = do
      address ← address_at previous (get_elem? rest 0)
      bytes ← fetch_data address
      ok (advance (sub_bytes (get_elem? rest 1) (get_elem? rest 2) bytes) 4)

    -- the seed that starts with the byte `discriminator`, in front of `rest`
    unfoldable pub seed_step : ℕ → List ℕ → Result SeedStep
    seed_step discriminator rest =
        if discriminator == 0
        then ok finish
        else if discriminator == 1
        then ok (literal_seed (get_elem? rest 0) rest)
        else if discriminator == 2
        then ok (advance (sub_bytes (get_elem? rest 0) (get_elem? rest 1) instruction_data) 3)
        else if discriminator == 3
        then address_seed rest
        else if discriminator == 4
        then account_data_seed rest
        else throw "transfer hook: invalid seed"

    -- the seed at position `i`; a missing discriminator is an invalid one
    abbrev pub seed_at : List ℕ → ℕ → Result SeedStep
    seed_at config i =
        required (get_elem? config i) "transfer hook: invalid seed" >>= λ discriminator.
        seed_step discriminator (drop (suc i) config)

    -- the turns of the loop from position `i` on; `stuck` is the result where the fuel runs out
    unfoldable pub seeds_from :
        (stuck : Result (List (List ℕ))) → ℕ → List ℕ → ℕ → Result (List (List ℕ))
    seeds_from stuck zero config i = stuck
    seeds_from stuck (suc fuel) config i =
        if ltb i 32 then seed_at config i >>= follow (seeds_from stuck fuel config) i else ok []

    unfoldable pub unpack_seeds : List ℕ → Result (List (List ℕ))
    unfolding seeds_from
    unpack_seeds config = seeds_from (throw "out of fuel") 33 config 0

    abbrev account_data_address : List ℕ → Result String
    account_data_address rest = do
      address ← address_at previous (get_elem? rest 0)
      bytes ← fetch_data address
      kit.decode_address (sub_bytes (get_elem? rest 1) (some address_len) bytes)

    unfoldable pub unpack_address_data : List ℕ → Result String
    unpack_address_data [] = throw "transfer hook: invalid address data"
    unpack_address_data (kind ∷ rest) =
        if kind == 1
        then kit.decode_address (sub_bytes (get_elem? rest 0) (some address_len) instruction_data)
        else if kind == 2
        then account_data_address rest
        else throw "transfer hook: invalid address data"

    -- the program of a derived address
    unfoldable pub program_of : ℕ → String → Result String
    program_of discriminator hook_program =
        if discriminator == 1
        then ok hook_program
        else if ltb discriminator pda_program_index_offset
        then address_at previous none
        else address_at previous (some (discriminator - pda_program_index_offset))

    abbrev derived : RawMeta → String → Result String
    derived meta hook_program = do
      program_id ← program_of meta.discriminator hook_program
      seeds ← unpack_seeds meta.address_config
      kit.get_program_derived_address program_id seeds

    unfoldable pub resolved_address : RawMeta → String → Result String
    resolved_address meta hook_program =
        if meta.discriminator == 0
        then kit.decode_address meta.address_config
        else if meta.discriminator == 2
        then unpack_address_data meta.address_config
        else derived meta hook_program

    unfoldable pub resolve_meta : RawMeta → String → Result AccountMeta
    resolve_meta meta hook_program = do
      address ← resolved_address meta hook_program
      ok (plain_meta address (role_for meta.is_signer meta.is_writable))

  -- the loop over the metas: each resolved account is one that later metas may refer to
  unfoldable pub resolve_metas :
      List RawMeta → List AccountMeta → List ℕ → String → Result (List AccountMeta)
  resolve_metas [] previous instruction_data hook_program = ok []
  resolve_metas (meta ∷ metas) previous instruction_data hook_program = do
    resolved ← resolve_meta previous instruction_data meta hook_program
    rest ← resolve_metas metas (previous ++ (resolved ∷ [])) instruction_data hook_program
    ok (resolved ∷ rest)

  -- the extra accounts, where the validation account exists
  unfoldable pub extra_accounts :
      ResolveTransferHookArgs → String → String → Option (List ℕ) → Result (List AccountMeta)
  extra_accounts args hook_program validation_pda none = ok []
  extra_accounts args hook_program validation_pda (some bytes) = do
    instruction_data ← execute_instruction_data args.amount
    metas ← read_metas bytes
    resolve_metas metas (base_accounts args validation_pda) instruction_data hook_program

  unfoldable pub resolve_hook : ResolveTransferHookArgs → Option String → Result (List AccountMeta)
  resolve_hook args none = ok []
  resolve_hook args (some hook_program) = do
    encoded ← kit.encode_address args.mint
    validation_pda ←
        kit.get_program_derived_address hook_program (kit.extra_account_metas_seed ∷ encoded ∷ [])
    validation_account ← kit.fetch_encoded_account validation_pda
    extras ← extra_accounts args hook_program validation_pda validation_account
    ok (plain_meta hook_program readonly ∷ plain_meta validation_pda readonly ∷ extras)

  abbrev pub resolve_mint : ResolveTransferHookArgs → Result (List AccountMeta)
  resolve_mint args = do
    extensions ← kit.fetch_mint args.mint
    resolve_hook args (hook_of (or_else extensions []))

  -- `explicit` is `transferHookAccounts`, where none are the empty list
  unfoldable pub resolve_unless :
      ResolveTransferHookArgs → (explicit : List AccountMeta) → Result (List AccountMeta)
  resolve_unless args (meta ∷ metas) = ok (meta ∷ metas)
  resolve_unless args [] =
      if str_eq args.token_program kit.token_2022_program_address then resolve_mint args else ok []

  unfoldable pub resolve_transfer_hook_accounts :
      ResolveTransferHookArgs → Result (List AccountMeta)
  resolve_transfer_hook_accounts args = resolve_unless args (or_else args.transfer_hook_accounts [])
