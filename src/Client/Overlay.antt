-- ===== src/Client/Overlay.antt =====
-- clients/typescript/src/plugin.ts: the helpers that every overlay uses.
pub mod Laws
use multi_delegator.Base.{String, Option, none, some, List, [], ◌∷◌, ◌++◌, or_else}
use multi_delegator.Base.Result.{Result, ok, ◌>>=◌}
use multi_delegator.Client.Types.{
  AccountMeta, Instruction, Signer, writable, writable_signer, when_given, AccountRole,
}
use multi_delegator.Client.Generated.{GeneratedClient, EventAccounts}

unfoldable pub pda_config : Option String → Option String
pda_config program_address = when_given program_address

-- `{ ...instruction, accounts }` with the trailing accounts behind those of the instruction
unfoldable pub with_trailing : Instruction → List AccountMeta → Instruction
with_trailing instruction [] = instruction
with_trailing instruction (meta ∷ metas) = record instruction {
  accounts = some (or_else instruction.accounts [] ++ (meta ∷ metas));
}

abbrev pub payer_meta : Signer → AccountMeta
payer_meta payer = record { address = payer.address; role = writable_signer; signer = some payer }

unfoldable pub append_payer : Instruction → Option Signer → Instruction
append_payer instruction none = instruction
append_payer instruction (some payer) = with_trailing instruction (payer_meta payer ∷ [])

abbrev pub plain_meta : String → AccountRole → AccountMeta
plain_meta address role = record { address = address; role = role; signer = none }

-- `if (input.receiver) ix = withTrailing(ix, …)`
unfoldable pub append_receiver : Instruction → Option String → Instruction
append_receiver instruction receiver = elim (when_given receiver) [
  | none ↦ instruction
  | some address ↦ with_trailing instruction (plain_meta address writable ∷ [])
]

module _ (kit : GeneratedClient) where
  unfoldable pub event_accounts : Option String → Result EventAccounts
  event_accounts program_address = do
    event_authority ← kit.find_event_authority_pda (pda_config program_address)
    ok (record {
      event_authority = event_authority;
      self_program = or_else program_address kit.program_address;
    })
