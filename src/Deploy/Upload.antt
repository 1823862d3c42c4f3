-- ===== src/Deploy/Upload.antt =====
-- The chunks that webapp/api/lib/deploy-builder.ts makes and webapp/src/hooks/use-program-deploy.ts
-- writes: what the buffer account holds when the loader has run the writes.
use multi_delegator.Base.{
  ℕ, zero, suc, ◌+◌, ◌-◌, ◌*◌, ◌^◌, ◌≤◌, ◌<◌, String, ◌≡◌, refl, ap, ◌∙◌, Bool, true, false, ◌&&◌,
  Option, none, some, List, [], ◌∷◌, ◌++◌, map, arith, str_eq, eq_refl, leb, if◌then◌else◌, length,
  get_elem?, take, drop, take-append-drop,
}
use multi_delegator.Client.Types.{
  AccountMeta, AccountRole, readonly, writable, readonly_signer, writable_signer, Signer,
  Instruction,
}
use multi_delegator.Loader.Browser.{build_write_ix}
use multi_delegator.Loader.WriteData.{read_write, read_write-build_write_ix}
use multi_delegator.Loader.Upload.{
  write_at, length-chunk_at, write_from, length-write_at, write_from-full,
}
use multi_delegator.Deploy.Writing.{write_instruction}
use multi_delegator.Loader.{chunk_size}
use multi_delegator.Loader.Plan.{Platform, chunk_at, chunks_from, total_chunks_of}
use multi_delegator.Deploy.Action.{Network}
use multi_delegator.Deploy.Written.{chunk_writes}

-- the address of the upgradeable loader
abbrev loader_program : String
loader_program = "BPFLoaderUpgradeab1e11111111111111111111111"

-- the accounts of an instruction by address and role
abbrev pub layout : Option (List AccountMeta) → List (String × AccountRole)
layout none = []
layout (some metas) = map (λ m. (m.address, m.role)) metas

-- what the kit's `addSignersToInstruction` keeps: it only attaches signers to the accounts
pub record KeepsLayout (add_signers : List Signer → Instruction → Instruction) : Type 0 where
  pub data_kept :
      (signers : List Signer) (ix : Instruction)
      → (add_signers signers ix).data_bytes ≡ ix.data_bytes
  pub program_kept :
      (signers : List Signer) (ix : Instruction)
      → (add_signers signers ix).program_address ≡ ix.program_address
  pub layout_kept :
      (signers : List Signer) (ix : Instruction)
      → layout (add_signers signers ix).accounts ≡ layout ix.accounts

abbrev is_writable : AccountRole → Bool
is_writable readonly = false
is_writable writable = true
is_writable readonly_signer = false
is_writable writable_signer = true

abbrev is_signer : AccountRole → Bool
is_signer readonly = false
is_signer writable = false
is_signer readonly_signer = true
is_signer writable_signer = true

-- the accounts of a write: the buffer, writable, and its authority, which signs
abbrev is_target : (buffer authority : String) → List (String × AccountRole) → Bool
is_target buffer authority [] = false
is_target buffer authority (account ∷ []) = false
is_target buffer authority (account ∷ signing ∷ rest) =
    str_eq account.0 buffer
    && is_writable account.1
    && str_eq signing.0 authority
    && is_signer signing.1

-- what the loader does with the offset and the bytes of a write: past the end it refuses
abbrev apply_write : Option (ℕ × List ℕ) → List ℕ → Option (List ℕ)
apply_write none data_bytes = none
apply_write (some (offset, chunk)) data_bytes =
    if leb (offset + length chunk) (length data_bytes)
    then some (write_at offset chunk data_bytes)
    else none

abbrev then_write : Option (List ℕ) → (List ℕ → Option (List ℕ)) → Option (List ℕ)
then_write none next = none
then_write (some data_bytes) next = next data_bytes

-- The data of the buffer account `buffer` with the authority `authority` after an instruction: the
-- loader program's write to that account, or none for any other instruction.
abbrev pub run_write : (buffer authority : String) → Instruction → List ℕ → Option (List ℕ)
run_write buffer authority ix data_bytes =
    if str_eq ix.program_address loader_program && is_target buffer authority (layout ix.accounts)
    then apply_write (read_write ix.data_bytes) data_bytes
    else none

-- the instructions of one transaction, and those of several
abbrev run_instructions : (buffer authority : String) → List Instruction → List ℕ → Option (List ℕ)
run_instructions buffer authority [] data_bytes = some data_bytes
run_instructions buffer authority (ix ∷ ixs) data_bytes =
    then_write (run_write buffer authority ix data_bytes) (run_instructions buffer authority ixs)

abbrev pub run_writes :
    (buffer authority : String) → List (List Instruction) → List ℕ → Option (List ℕ)
run_writes buffer authority [] data_bytes = some data_bytes
run_writes buffer authority (ixs ∷ txs) data_bytes =
    then_write (run_instructions buffer authority ixs data_bytes) (run_writes buffer authority txs)

pub get_elem?-chunks_from :
    (os : Platform) (so_bytes : List ℕ) (remaining i j : ℕ)
    → j < remaining
    → get_elem? (chunks_from os remaining so_bytes i) j
      ≡ some (os.to_base64 (chunk_at so_bytes (i + j)))
unfolding chunks_from
get_elem?-chunks_from os so_bytes zero i j h = absurd (omega (arith, h))
get_elem?-chunks_from os so_bytes (suc remaining) i zero h =
    let here : i ≡ i + 0 = omega arith in ap (λ k. some (os.to_base64 (chunk_at so_bytes k))) here
get_elem?-chunks_from os so_bytes (suc remaining) i (suc j) h =
    let shifted : i + 1 + j ≡ i + suc j = omega arith in
    get_elem?-chunks_from os so_bytes remaining (i + 1) j (omega (arith, h))
    ∙ ap (λ k. some (os.to_base64 (chunk_at so_bytes k))) shifted

module _ (net : Network) (buffer : Signer) (so_bytes : List ℕ) (keeps : KeepsLayout net.add_signers)
    (so_fits : length so_bytes < 2 ^ 32) where
  read_write-write_instruction :
      (i : ℕ)
      → i * chunk_size < length so_bytes
      → read_write (write_instruction net buffer i (chunk_at so_bytes i)).data_bytes
        ≡ some (i * chunk_size, chunk_at so_bytes i)
  unfolding write_instruction
  read_write-write_instruction i within =
      (read_write-build_write_ix net.add_signers buffer.address buffer (i * chunk_size)
        (chunk_at so_bytes i) keeps.data_kept (omega (arith, within, so_fits))
        (omega (arith, length-chunk_at so_bytes i))).0

  write_instruction-IsWrite :
      (i : ℕ) (chunk : List ℕ)
      → let ix = write_instruction net buffer i chunk in
        (str_eq ix.program_address loader_program
          && is_target buffer.address buffer.address (layout ix.accounts))
        ≡ true
  unfolding write_instruction build_write_ix
  write_instruction-IsWrite i chunk =
      rw (keeps.program_kept _ _, keeps.layout_kept _ _, eq_refl buffer.address) refl

  run_chunk :
      (i : ℕ) (data_bytes : List ℕ)
      → i * chunk_size < length so_bytes
      → length data_bytes ≡ length so_bytes
      → run_instructions buffer.address buffer.address
          (write_instruction net buffer i (chunk_at so_bytes i) ∷ [])
          data_bytes
        ≡ some (write_at (i * chunk_size) (chunk_at so_bytes i) data_bytes)
  run_chunk i data_bytes within same =
      let size = length-chunk_at so_bytes i in
      rw (write_instruction-IsWrite i (chunk_at so_bytes i), read_write-write_instruction i within)
        (ground (arith, size, within, same))

  run_writes-chunk_writes :
      (remaining i : ℕ) (data_bytes : List ℕ)
      → (i + remaining) * chunk_size < length so_bytes + chunk_size
      → length data_bytes ≡ length so_bytes
      → run_writes buffer.address buffer.address
          (chunk_writes net buffer so_bytes remaining i)
          data_bytes
        ≡ some (write_from remaining so_bytes i data_bytes)
  run_writes-chunk_writes zero i data_bytes few same = refl
  run_writes-chunk_writes (suc remaining) i data_bytes few same =
      let chunk = chunk_at so_bytes i in
      let size = length-chunk_at so_bytes i in
      let length_kept =
        length-write_at (i * chunk_size) chunk data_bytes (omega (arith, size, same, few)) in
      rw (run_chunk i data_bytes (omega (arith, few)) same) (
        run_writes-chunk_writes remaining (i + 1) (write_at (i * chunk_size) chunk data_bytes)
          (omega (arith, few)) (length_kept ∙ same))

  -- the writes from chunk `start` on complete a buffer that holds the chunks before it
  pub run_writes_complete :
      (start : ℕ) (data_bytes : List ℕ)
      → start ≤ total_chunks_of (length so_bytes)
      → length data_bytes ≡ length so_bytes
      → take (start * chunk_size) data_bytes ≡ take (start * chunk_size) so_bytes
      → run_writes buffer.address buffer.address
          (chunk_writes net buffer so_bytes (total_chunks_of (length so_bytes) - start) start)
          data_bytes
        ≡ some so_bytes
  run_writes_complete start data_bytes within same begun =
      let total = total_chunks_of (length so_bytes) in
      run_writes-chunk_writes (total - start) start data_bytes (omega (arith, within)) same
      ∙ ap some (
          write_from-full (total - start) start so_bytes data_bytes same (omega (arith, within))
            (omega (arith, within))
          ∙ ap (λ t. t ++ drop (start * chunk_size) so_bytes) begun
          ∙ take-append-drop (start * chunk_size) so_bytes)
