-- ===== src/Loader/WriteData.antt =====
-- The data of the write instruction of webapp/api/lib/bpf-loader.ts and of
-- webapp/src/lib/bpf-loader-browser.ts, as the loader program reads it.
use multi_delegator.Base.{
  ℕ, ◌+◌, ◌^◌, ◌<◌, String, ◌≡◌, refl, ap, ◌∙◌, ◌&&◌, Option, none, some, List, ◌++◌, arith, leb,
  ◌==◌, if◌then◌else◌, length, take, drop, slice, take_past,
}
use multi_delegator.Client.HookMetas.{little_endian, from_little_endian}
use multi_delegator.Client.Types.{Instruction, Signer}
use multi_delegator.Loader.{u32_le, u64_le, build_write_ix}
use multi_delegator.Loader.Browser
use multi_delegator.Loader.Bytes.{from_little_endian-little_endian}

-- the offset and the bytes of a write instruction: variant 1 of the loader's instructions, then the
-- offset in four bytes, the length in eight, and as many bytes
abbrev pub read_write : List ℕ → Option (ℕ × List ℕ)
read_write data_bytes =
    let size = from_little_endian (slice 8 16 data_bytes) in
    if from_little_endian (take 4 data_bytes) == 1 && leb (16 + size) (length data_bytes)
    then some (from_little_endian (slice 4 8 data_bytes), take size (drop 16 data_bytes))
    else none

abbrev pub write_data : ℕ → List ℕ → List ℕ
write_data offset chunk = u32_le 1 ++ u32_le offset ++ u64_le (length chunk) ++ chunk

variant_one : from_little_endian (u32_le 1) ≡ 1
unfolding from_little_endian u32_le little_endian
variant_one = refl

pub read_write-write_data :
    (offset : ℕ) (chunk : List ℕ)
    → offset < 2 ^ 32
    → length chunk < 2 ^ 64
    → read_write (write_data offset chunk) ≡ some (offset, chunk)
unfolding u32_le u64_le little_endian
read_write-write_data offset chunk offset_fits length_fits =
    let rest = take_past (length chunk) chunk (omega arith) in
    let low = from_little_endian-little_endian 4 offset offset_fits in
    let size = from_little_endian-little_endian 8 (length chunk) length_fits in
    rw (variant_one, size, low) (ground (arith, rest))

-- The loader reads back the offset and the bytes that either builder was given, where the offset is
-- below 2 ^ 32, the number of bytes below 2 ^ 64, and the kit's `addSignersToInstruction` keeps the
-- data.
pub read_write-build_write_ix :
    (add_signers : List Signer → Instruction → Instruction) (buffer : String) (authority : Signer)
    (offset : ℕ) (chunk : List ℕ)
    → ((signers : List Signer) (ix : Instruction)
        → (add_signers signers ix).data_bytes ≡ ix.data_bytes)
    → offset < 2 ^ 32
    → length chunk < 2 ^ 64
    → (read_write (Browser.build_write_ix add_signers buffer authority offset chunk).data_bytes
        ≡ some (offset, chunk))
      × (read_write (build_write_ix buffer authority.address offset chunk).data_bytes
          ≡ some (offset, chunk))
unfolding Browser.build_write_ix build_write_ix
read_write-build_write_ix add_signers buffer authority offset chunk keeps offset_fits length_fits =
    let read = read_write-write_data offset chunk offset_fits length_fits in
    (ap read_write (keeps _ _) ∙ read, read)
