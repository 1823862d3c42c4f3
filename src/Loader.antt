-- ===== src/Loader.antt =====
-- webapp/api/lib/bpf-loader.ts: the instructions of the upgradeable loader, as the API server builds
-- them. Bytes are numbers below 256. The kit's address encoder and its search for program derived
-- addresses are parameters.
pub mod Bytes
pub mod Browser
pub mod Plan
pub mod Upload
pub mod WriteData
pub mod Inspect
use multi_delegator.Base.{ℕ, String, Option, none, some, List, [], ◌∷◌, ◌++◌, length}
use multi_delegator.Base.Result.{Result}
use multi_delegator.Client.Types.{
  Instruction, AccountMeta, readonly, writable, readonly_signer, writable_signer,
}
use multi_delegator.Client.HookMetas.{little_endian}
use multi_delegator.Client.Overlay.{plain_meta}

abbrev pub bpf_loader_upgradeable : String
bpf_loader_upgradeable = "BPFLoaderUpgradeab1e11111111111111111111111"

abbrev pub system_program : String
system_program = "11111111111111111111111111111111"

abbrev pub sysvar_rent : String
sysvar_rent = "SysvarRent111111111111111111111111111111111"

abbrev pub sysvar_clock : String
sysvar_clock = "SysvarC1ock11111111111111111111111111111111"

abbrev pub chunk_size : ℕ
chunk_size = 900

-- `setUint32` and `setBigUint64` store the value modulo 2 ^ 32 and 2 ^ 64
unfoldable pub u32_le : ℕ → List ℕ
u32_le value = little_endian 4 value

unfoldable pub u64_le : ℕ → List ℕ
u64_le value = little_endian 8 value

abbrev pub loader_instruction : List AccountMeta → List ℕ → Instruction
loader_instruction metas bytes = record {
  program_address = bpf_loader_upgradeable;
  accounts = some metas;
  data_bytes = bytes;
}

abbrev writable_meta : String → AccountMeta
writable_meta address = plain_meta address writable

abbrev writable_signer_meta : String → AccountMeta
writable_signer_meta address = plain_meta address writable_signer

abbrev signer_meta : String → AccountMeta
signer_meta address = plain_meta address readonly_signer

abbrev readonly_meta : String → AccountMeta
readonly_meta address = plain_meta address readonly

unfoldable pub build_initialize_buffer_ix : (buffer authority : String) → Instruction
build_initialize_buffer_ix buffer authority =
    loader_instruction (writable_meta buffer ∷ readonly_meta authority ∷ []) (u32_le 0)

unfoldable pub build_write_ix :
    (buffer authority : String) (offset : ℕ) (chunk : List ℕ) → Instruction
build_write_ix buffer authority offset chunk =
    loader_instruction (writable_meta buffer ∷ signer_meta authority ∷ [])
      (u32_le 1 ++ u32_le offset ++ u64_le (length chunk) ++ chunk)

unfoldable pub build_deploy_ix :
    (payer program_data_pda program buffer authority : String) (max_data_len : ℕ) → Instruction
build_deploy_ix payer program_data_pda program buffer authority max_data_len =
    loader_instruction
      (writable_signer_meta payer
        ∷ writable_meta program_data_pda
        ∷ writable_signer_meta program
        ∷ writable_meta buffer
        ∷ readonly_meta sysvar_rent
        ∷ readonly_meta sysvar_clock
        ∷ readonly_meta system_program
        ∷ signer_meta authority
        ∷ [])
      (u32_le 2 ++ u64_le max_data_len)

unfoldable pub build_upgrade_ix :
    (program_data_pda program buffer spill authority : String) → Instruction
build_upgrade_ix program_data_pda program buffer spill authority =
    loader_instruction
      (writable_meta program_data_pda
        ∷ writable_meta program
        ∷ writable_meta buffer
        ∷ writable_meta spill
        ∷ readonly_meta sysvar_rent
        ∷ readonly_meta sysvar_clock
        ∷ signer_meta authority
        ∷ [])
      (u32_le 3)

-- `if (newAuth) accounts.push(readonly(newAuth))`, for an address that is not the empty text
abbrev new_authority_metas : Option String → List AccountMeta
new_authority_metas none = []
new_authority_metas (some new_auth) = readonly_meta new_auth ∷ []

unfoldable pub build_set_authority_ix :
    (account current_auth : String) (new_auth : Option String) → Instruction
build_set_authority_ix account current_auth new_auth =
    loader_instruction
      (writable_meta account ∷ signer_meta current_auth ∷ new_authority_metas new_auth) (u32_le 4)

unfoldable pub build_close_buffer_ix : (buffer recipient authority : String) → Instruction
build_close_buffer_ix buffer recipient authority =
    loader_instruction (writable_meta buffer ∷ writable_meta recipient ∷ signer_meta authority ∷ [])
      (u32_le 5)

-- The kit's functions on addresses: an address's 32 bytes and back, and the search for a derived one.
pub record AddressCodec : Type 0 where
  pub encode : String → List ℕ
  pub decode : List ℕ → String
  pub get_program_derived_address :
      (program_address : String) (seeds : List (List ℕ)) → Result String

unfoldable pub derive_program_data_address : AddressCodec → String → Result String
derive_program_data_address kit program_id =
    kit.get_program_derived_address bpf_loader_upgradeable (kit.encode program_id ∷ [])
