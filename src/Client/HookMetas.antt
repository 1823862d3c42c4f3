-- ===== src/Client/HookMetas.antt =====
-- clients/typescript/src/transfer-hook.ts: the bytes of the instruction, and the entries of the
-- validation account's list. Bytes are numbers below 256.
use multi_delegator.Base.{
  ℕ, zero, suc, ◌+◌, ◌-◌, ◌*◌, ◌/◌, ◌%◌, ◌^◌, Bool, true, false, not, ◌&&◌, ◌||◌, Option, none,
  some, List, [], ◌∷◌, ◌++◌, ltb, leb, ◌==◌, if◌then◌else◌, or_else, length, get_elem?, take, drop,
  slice,
}
use multi_delegator.Base.Int.{ℤ, pos, negsuc}
use multi_delegator.Base.Result.{Result, ok, throw}
use multi_delegator.Client.Types.{
  AccountRole, readonly, writable, readonly_signer, writable_signer, Quantity, bigint, whole,
  fractional,
}

pub record RawMeta : Type 0 where
  pub address_config : List ℕ
  pub discriminator : ℕ
  pub is_signer : Bool
  pub is_writable : Bool

abbrev pub tlv_header_len : ℕ
tlv_header_len = 12

abbrev pub pod_slice_count_len : ℕ
pod_slice_count_len = 4

abbrev pub extra_account_meta_len : ℕ
extra_account_meta_len = 35

abbrev pub address_len : ℕ
address_len = 32

abbrev pub pda_program_index_offset : ℕ
pda_program_index_offset = 128

abbrev pub execute_discriminator : List ℕ
execute_discriminator = 105 ∷ 37 ∷ 101 ∷ 197 ∷ 75 ∷ 251 ∷ 102 ∷ 26 ∷ []

unfoldable pub role_for : Bool → Bool → AccountRole
role_for is_signer is_writable =
    if is_signer && is_writable
    then writable_signer
    else if is_signer
    then readonly_signer
    else if is_writable
    then writable
    else readonly

-- `n` as `k` bytes, the lowest first
unfoldable pub little_endian : ℕ → ℕ → List ℕ
little_endian zero n = []
little_endian (suc k) n = n % 256 ∷ little_endian k (n / 256)

unfoldable pub from_little_endian : List ℕ → ℕ
from_little_endian [] = 0
from_little_endian (b ∷ bs) = b + 256 * from_little_endian bs

-- the unsigned 64 bits that `setBigUint64` stores for a bigint
unfoldable pub as_u64 : ℤ → ℕ
as_u64 (pos n) = n % 2 ^ 64
as_u64 (negsuc n) = 2 ^ 64 - 1 - n % 2 ^ 64

unfoldable pub execute_instruction_data : Quantity → Result (List ℕ)
execute_instruction_data (bigint z) = ok (execute_discriminator ++ little_endian 8 (as_u64 z))
execute_instruction_data (whole z) = ok (execute_discriminator ++ little_endian 8 (as_u64 z))
execute_instruction_data fractional =
    throw "The number cannot be converted to a BigInt because it is not an integer"

-- `EXECUTE_DISCRIMINATOR.every((byte, i) => data[i] === byte)`
unfoldable pub begins_with : List ℕ → List ℕ → Bool
begins_with [] data_bytes = true
begins_with (b ∷ bs) [] = false
begins_with (b ∷ bs) (c ∷ cs) = b == c && begins_with bs cs

abbrev is_one : Option ℕ → Bool
is_one none = false
is_one (some b) = b == 1

abbrev pub meta_at : List ℕ → RawMeta
meta_at entry = record {
  address_config = slice 1 33 entry;
  discriminator = or_else (get_elem? entry 0) 0;
  is_signer = is_one (get_elem? entry 33);
  is_writable = is_one (get_elem? entry 34);
}

-- the entries from here on, `count` of them at most, as long as a whole one is left
unfoldable pub metas_from : ℕ → List ℕ → List RawMeta
metas_from zero bytes = []
metas_from (suc count) bytes = elim (leb extra_account_meta_len (length bytes)) [
  | true ↦
      meta_at (take extra_account_meta_len bytes)
      ∷ metas_from count (drop extra_account_meta_len bytes)
  | false ↦ []
]

-- `getUint32` throws where four bytes are not left
unfoldable pub read_metas : List ℕ → Result (List RawMeta)
unfolding metas_from
read_metas bytes =
    if ltb (length bytes) tlv_header_len || not (begins_with execute_discriminator bytes)
    then ok []
    else if ltb (length bytes) (tlv_header_len + pod_slice_count_len)
    then throw "Offset is outside the bounds of the DataView"
    else ok (
        metas_from
          (from_little_endian (slice tlv_header_len (tlv_header_len + pod_slice_count_len) bytes))
          (drop (tlv_header_len + pod_slice_count_len) bytes))
