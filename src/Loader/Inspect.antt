-- ===== src/Loader/Inspect.antt =====
-- webapp/api/lib/program-status.ts: what the two accounts of an upgradeable program say of it. The
-- RPC and base64 are parameters.
pub mod Laws
use multi_delegator.Base.{
  ℕ, ◌+◌, ◌-◌, String, Bool, true, false, not, ◌&&◌, ◌||◌, Option, none, some, List, ltb, leb, ◌==◌,
  if◌then◌else◌, length, get_elem?, slice,
}
use multi_delegator.Base.Int.{pos, pos_part}
use multi_delegator.Base.Result.{Result, ok, throw, ◌>>=◌}
use multi_delegator.Js.Number.{number}
use multi_delegator.Client.HookMetas.{from_little_endian}
use multi_delegator.Loader.{AddressCodec}

abbrev program_account_tag : ℕ
program_account_tag = 2

abbrev program_data_offset : ℕ
program_data_offset = 4

abbrev program_data_address_len : ℕ
program_data_address_len = 32

abbrev program_account_min_len : ℕ
program_account_min_len = program_data_offset + program_data_address_len

abbrev slot_offset : ℕ
slot_offset = 4

abbrev slot_size : ℕ
slot_size = 8

abbrev authority_flag_offset : ℕ
authority_flag_offset = 12

abbrev authority_address_offset : ℕ
authority_address_offset = 13

abbrev authority_address_len : ℕ
authority_address_len = 32

abbrev header_size : ℕ
header_size = authority_address_offset + authority_address_len

pub record ProgramStatus : Type 0 where
  pub deployed : Bool
  pub upgradeable : Bool
  pub upgrade_authority : Option String
  pub last_deploy_slot : Option ℕ
  pub last_deploy_time : Option ℕ
  pub program_data_address : Option String
  pub data_size : Option ℕ

-- the account's bytes, after base64
pub record RpcAccountInfo : Type 0 where
  pub data_bytes : List ℕ
  pub executable : Bool

-- `rpcCall(rpcUrl, …)` for the two methods that are used
pub record StatusRpc : Type 0 where
  pub get_account_info : String → Result (Option RpcAccountInfo)
  pub get_block_time : ℕ → Result (Option ℕ)

abbrev pub not_deployed : ProgramStatus
not_deployed = record {
  deployed = false;
  upgradeable = false;
  upgrade_authority = none;
  last_deploy_slot = none;
  last_deploy_time = none;
  program_data_address = none;
  data_size = none;
}

-- `data[i] === n`
abbrev byte_is : ℕ → Option ℕ → Bool
byte_is n none = false
byte_is n (some b) = b == n

-- what the failed call leaves: `lastDeployTime` as it was
abbrev time_or_null : Result (Option ℕ) → Option ℕ
time_or_null (throw message) = none
time_or_null (ok time) = time

module _ (kit : AddressCodec) (rpc : StatusRpc) where
  unfoldable pub deploy_time_at : ℕ → Option ℕ
  deploy_time_at slot = if ltb 0 slot then time_or_null (rpc.get_block_time slot) else none

  unfoldable pub authority_in : List ℕ → Option String
  authority_in pd_data =
      if byte_is 1 (get_elem? pd_data authority_flag_offset) && leb header_size (length pd_data)
      then some (
          kit.decode (
            slice authority_address_offset (authority_address_offset + authority_address_len)
              pd_data))
      else none

  -- the status from the data of the program data account, with `Number` of the slot
  unfoldable pub status_of_data : String → List ℕ → ProgramStatus
  unfolding deploy_time_at authority_in
  status_of_data program_data_address pd_data =
      let last_deploy_slot =
        pos_part (
          number
            (pos (from_little_endian (slice slot_offset (slot_offset + slot_size) pd_data)))) in
      record {
        deployed = true;
        upgradeable = byte_is 1 (get_elem? pd_data authority_flag_offset);
        upgrade_authority = authority_in pd_data;
        last_deploy_slot = some last_deploy_slot;
        last_deploy_time = deploy_time_at last_deploy_slot;
        program_data_address = some program_data_address;
        data_size =
            if ltb header_size (length pd_data) then some (length pd_data - header_size) else none;
      }

  unfoldable pub status_of_program_data : String → Option RpcAccountInfo → ProgramStatus
  unfolding status_of_data
  status_of_program_data program_data_address none = record not_deployed {
    deployed = true;
    program_data_address = some program_data_address;
  }
  status_of_program_data program_data_address (some account) =
      status_of_data program_data_address account.data_bytes

  -- `accountResult.value` and the tests on it
  abbrev program_account : Option RpcAccountInfo → Option (List ℕ)
  program_account none = none
  program_account (some account) =
      if not account.executable
      then none
      else if ltb (length account.data_bytes) program_account_min_len
          || not (byte_is program_account_tag (get_elem? account.data_bytes 0))
      then none
      else some account.data_bytes

  abbrev status_of_program : Option (List ℕ) → Result ProgramStatus
  status_of_program none = ok not_deployed
  status_of_program (some data_bytes) = do
    let address =
        kit.decode
          (slice program_data_offset (program_data_offset + program_data_address_len) data_bytes)
    found ← rpc.get_account_info address
    ok (status_of_program_data address found)

  unfoldable pub check_program_status : String → Result ProgramStatus
  unfolding status_of_program_data
  check_program_status program_address = do
    account ← rpc.get_account_info program_address
    status_of_program (program_account account)
