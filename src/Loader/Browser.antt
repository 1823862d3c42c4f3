-- ===== src/Loader/Browser.antt =====
-- webapp/src/lib/bpf-loader-browser.ts: the same instructions as the browser builds them, with the
-- signers attached. `addSignersToInstruction` of the kit is a parameter.
use multi_delegator.Base.{ℕ, String, Option, none, some, List, [], ◌∷◌, ◌++◌, length}
use multi_delegator.Client.Types.{
  Instruction, AccountMeta, Signer, readonly, writable, readonly_signer, writable_signer,
}
use multi_delegator.Client.Overlay.{plain_meta}
use multi_delegator.Loader.{
  system_program, sysvar_rent, sysvar_clock, u32_le, u64_le, loader_instruction, AddressCodec,
}
use multi_delegator.Loader.Inspect.Laws.{program_data}

abbrev system_instruction : List AccountMeta → List ℕ → Instruction
system_instruction metas bytes = record {
  program_address = system_program;
  accounts = some metas;
  data_bytes = bytes;
}

abbrev new_authority : Option String → List AccountMeta
new_authority none = []
new_authority (some new_auth) = plain_meta new_auth readonly ∷ []

-- `getAddressEncoder().encode`, and the kit's `addSignersToInstruction(signers, instruction)`
module _ (kit : AddressCodec) (add_signers : List Signer → Instruction → Instruction) where
  unfoldable pub build_create_account_ix :
      (payer new_account : Signer) (lamports space : ℕ) (owner : String) → Instruction
  build_create_account_ix payer new_account lamports space owner =
      add_signers (payer ∷ new_account ∷ []) (
        system_instruction
          (plain_meta payer.address writable_signer
            ∷ plain_meta new_account.address writable_signer
            ∷ [])
          (u32_le 0 ++ u64_le lamports ++ u64_le space ++ kit.encode owner))

module _ (add_signers : List Signer → Instruction → Instruction) where
  unfoldable pub build_transfer_ix : (from : Signer) (to : String) (lamports : ℕ) → Instruction
  build_transfer_ix from to lamports = add_signers (from ∷ []) (
      system_instruction (plain_meta from.address writable_signer ∷ plain_meta to writable ∷ [])
        (u32_le 2 ++ u64_le lamports))

  unfoldable pub build_initialize_buffer_ix : (buffer authority : String) → Instruction
  build_initialize_buffer_ix buffer authority =
      loader_instruction (plain_meta buffer writable ∷ plain_meta authority readonly ∷ [])
        (u32_le 0)

  unfoldable pub build_write_ix :
      (buffer : String) (authority : Signer) (offset : ℕ) (chunk : List ℕ) → Instruction
  build_write_ix buffer authority offset chunk = add_signers (authority ∷ []) (
      loader_instruction
        (plain_meta buffer writable ∷ plain_meta authority.address writable_signer ∷ [])
        (u32_le 1 ++ u32_le offset ++ u64_le (length chunk) ++ chunk))

  unfoldable pub build_deploy_ix :
      (payer : Signer) (program_data_pda : String) (program : Signer) (buffer : String)
      (authority : Signer) (max_data_len : ℕ)
      → Instruction
  build_deploy_ix payer program_data_pda program buffer authority max_data_len =
      add_signers (payer ∷ program ∷ authority ∷ []) (
        loader_instruction
          (plain_meta payer.address writable_signer
            ∷ plain_meta program_data_pda writable
            ∷ plain_meta program.address writable_signer
            ∷ plain_meta buffer writable
            ∷ plain_meta sysvar_rent readonly
            ∷ plain_meta sysvar_clock readonly
            ∷ plain_meta system_program readonly
            ∷ plain_meta authority.address writable_signer
            ∷ [])
          (u32_le 2 ++ u64_le max_data_len))

  unfoldable pub build_upgrade_ix :
      (program_data_pda program buffer spill : String) (authority : Signer) → Instruction
  build_upgrade_ix program_data_pda program buffer spill authority = add_signers (authority ∷ []) (
      loader_instruction
        (plain_meta program_data_pda writable
          ∷ plain_meta program writable
          ∷ plain_meta buffer writable
          ∷ plain_meta spill writable
          ∷ plain_meta sysvar_rent readonly
          ∷ plain_meta sysvar_clock readonly
          ∷ plain_meta authority.address writable_signer
          ∷ [])
        (u32_le 3))

  unfoldable pub build_set_authority_ix :
      (account : String) (current_auth : Signer) (new_auth : Option String) → Instruction
  build_set_authority_ix account current_auth new_auth = add_signers (current_auth ∷ []) (
      loader_instruction
        (plain_meta account writable
          ∷ plain_meta current_auth.address readonly_signer
          ∷ new_authority new_auth)
        (u32_le 4))

  unfoldable pub build_close_buffer_ix :
      (buffer recipient : String) (authority : Signer) → Instruction
  build_close_buffer_ix buffer recipient authority = add_signers (authority ∷ []) (
      loader_instruction
        (plain_meta buffer writable
          ∷ plain_meta recipient writable
          ∷ plain_meta authority.address writable_signer
          ∷ [])
        (u32_le 5))

  unfoldable pub build_close_program_ix :
      (program_data recipient : String) (authority : Signer) (program : String) → Instruction
  build_close_program_ix program_data recipient authority program = add_signers (authority ∷ []) (
      loader_instruction
        (plain_meta program_data writable
          ∷ plain_meta recipient writable
          ∷ plain_meta authority.address writable_signer
          ∷ plain_meta program writable
          ∷ [])
        (u32_le 5))
