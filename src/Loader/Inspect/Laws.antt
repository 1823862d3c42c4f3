-- ===== src/Loader/Inspect/Laws.antt =====
-- webapp/api/lib/program-status.ts: the status against the layout of the loader's accounts.
use multi_delegator.Base.{
  ℕ, zero, suc, ◌+◌, ◌-◌, ◌^◌, ◌<◌, String, ◌≡◌, refl, sym, ap, ◌∙◌, true, false, Option, none,
  some, List, [], ◌∷◌, ◌++◌, append-nil, arith, ltb, if◌then◌else◌, is_some, length, get_elem?,
  take, slice, length-append, take-append,
}
use multi_delegator.Base.Result.{ok, >>=-eq-ok, ok_inj}
use multi_delegator.Js.Number.{number_of_natural}
use mathlib.Core.Path.{subst}
use multi_delegator.Client.HookMetas.{little_endian}
use multi_delegator.Loader.{AddressCodec, u32_le, u64_le}
use multi_delegator.Loader.Inspect.{
  StatusRpc, status_of_data, deploy_time_at, authority_in, ProgramStatus, not_deployed,
  status_of_program_data, check_program_status, RpcAccountInfo, authority_flag_offset, byte_is,
  status_of_program, program_data_offset, program_data_address_len, program_account,
}
use multi_delegator.Loader.Bytes.{from_little_endian-little_endian}

-- a program account: variant 2, then the address of the program data account
abbrev pub program_account_data : AddressCodec → String → List ℕ
program_account_data kit program_data_address = u32_le 2 ++ kit.encode program_data_address

zeros : ℕ → List ℕ
zeros zero = []
zeros (suc n) = 0 ∷ zeros n

-- the optional authority, in the 33 bytes kept for it
abbrev authority_data : AddressCodec → Option String → List ℕ
unfolding zeros
authority_data kit none = 0 ∷ zeros 32
authority_data kit (some authority) = 1 ∷ kit.encode authority

-- a program data account: variant 3, the slot, the authority and the program
abbrev pub program_data : AddressCodec → ℕ → Option String → List ℕ → List ℕ
unfolding zeros
program_data kit slot authority elf =
    u32_le 3 ++ u64_le slot ++ (authority_data kit authority ++ elf)

abbrev size_of : ℕ → Option ℕ
size_of zero = none
size_of (suc n) = some (suc n)

variant_two :
    (kit : AddressCodec) (address : String)
    → get_elem? (program_account_data kit address) 0 ≡ some 2
unfolding u32_le little_endian
variant_two kit address = refl

-- the size computed from the whole length, which counts the 45 bytes of the header
data_size-program :
    (n total : ℕ) → total ≡ 45 + n → (if ltb 45 total then some (total - 45) else none) ≡ size_of n
data_size-program zero total h = ground (arith, h)
data_size-program (suc n) total h = ground (arith, h)

-- the kit writes an address in 32 bytes and reads it back
abbrev pub IsEncoded : AddressCodec → String → Type 0
IsEncoded kit address =
    (kit.decode (kit.encode address) ≡ address) × (length (kit.encode address) ≡ 32)

abbrev pub IsEncodedIfAny : AddressCodec → Option String → Type 0
IsEncodedIfAny kit none = Unit
IsEncodedIfAny kit (some address) = IsEncoded kit address

module _ (kit : AddressCodec) (rpc : StatusRpc) where
  take_encoded :
      (address : String) (rest : List ℕ)
      → IsEncoded kit address
      → take 32 (kit.encode address ++ rest) ≡ kit.encode address
  take_encoded address rest encoded =
      ap (λ n. take n (kit.encode address ++ rest)) (sym encoded.1)
      ∙ take-append (kit.encode address) rest

  status_of_data-program_data :
      (address : String) (slot : ℕ) (authority : Option String) (elf : List ℕ)
      → slot < 2 ^ 53
      → IsEncodedIfAny kit authority
      → status_of_data kit rpc address (program_data kit slot authority elf) ≡ record {
        deployed = true;
        upgradeable = is_some authority;
        upgrade_authority = authority;
        last_deploy_slot = some slot;
        last_deploy_time = deploy_time_at kit rpc slot;
        program_data_address = some address;
        data_size = size_of (length elf);
      }
  unfolding status_of_data authority_in u32_le u64_le little_endian zeros
  status_of_data-program_data address slot none elf fits encoded =
      let low = from_little_endian-little_endian 8 slot (omega (arith, fits)) in
      let exact = number_of_natural slot fits in
      let size = data_size-program (length elf) (45 + length elf) refl in
      rw (low, exact) (ground (arith, size))
  status_of_data-program_data address slot (some authority) elf fits encoded =
      let low = from_little_endian-little_endian 8 slot (omega (arith, fits)) in
      let exact = number_of_natural slot fits in
      let whole = length-append (kit.encode authority) elf in
      let read = ap kit.decode (take_encoded authority elf encoded) ∙ encoded.0 in
      let size = data_size-program (length elf) (45 + length elf) refl in
      rw (low, exact, read) (ground (arith, size, whole, encoded.1))

  -- The status of a program whose two accounts are laid out as the loader lays them out reads back
  -- what they were made from: the slot, the authority if there is one, the address of the second
  -- account and the program's size, `none` for an empty program. The kit writes
  -- both addresses in 32 bytes and reads them back, and the slot is below 2 ^ 53.
  pub check_program_status-deployed :
      (program address : String) (slot : ℕ) (authority : Option String) (elf : List ℕ)
      → slot < 2 ^ 53
      → IsEncoded kit address
      → IsEncodedIfAny kit authority
      → rpc.get_account_info program
        ≡ ok (some (record { data_bytes = program_account_data kit address; executable = true }))
      → rpc.get_account_info address
        ≡ ok
            (some (record { data_bytes = program_data kit slot authority elf; executable = false }))
      → check_program_status kit rpc program
        ≡ ok (record {
          deployed = true;
          upgradeable = is_some authority;
          upgrade_authority = authority;
          last_deploy_slot = some slot;
          last_deploy_time = deploy_time_at kit rpc slot;
          program_data_address = some address;
          data_size = size_of (length elf);
        })
  unfolding check_program_status status_of_program_data u32_le little_endian
  check_program_status-deployed program address slot authority elf fits encoded authority_encoded
        first second =
      let long = encoded.1 in
      let named =
        ap kit.decode (
          ap (λ t. take 32 t) (sym (append-nil (kit.encode address)))
          ∙ take_encoded address [] encoded)
        ∙ encoded.0 in
      rw (first, long, named, second)
        (ap ok (status_of_data-program_data address slot authority elf fits authority_encoded))

-- what holds of every status: an upgrade authority is only given for an upgradeable program, an
-- upgradeable program is deployed, a deployed program has its data account's address, and what is not
-- deployed has nothing
abbrev pub IsCoherent : ProgramStatus → Type 0
IsCoherent status =
    (is_some status.upgrade_authority ≡ true → status.upgradeable ≡ true)
    × (status.upgradeable ≡ true → status.deployed ≡ true)
    × (status.deployed ≡ true → is_some status.program_data_address ≡ true)
    × (status.deployed ≡ false → status ≡ not_deployed)

byte_is-authority_in :
    (kit : AddressCodec) (rpc : StatusRpc) (pd_data : List ℕ)
    → is_some (authority_in kit rpc pd_data) ≡ true
    → byte_is 1 (get_elem? pd_data authority_flag_offset) ≡ true
unfolding authority_in
byte_is-authority_in kit rpc pd_data h = ground arith

status_of_program_data-IsCoherent :
    (kit : AddressCodec) (rpc : StatusRpc) (address : String) (found : Option RpcAccountInfo)
    → IsCoherent (status_of_program_data kit rpc address found)
unfolding status_of_program_data status_of_data
status_of_program_data-IsCoherent kit rpc address none = (λ e. e, λ e. refl, λ e. refl, λ e. cc)
status_of_program_data-IsCoherent kit rpc address (some account) =
    (byte_is-authority_in kit rpc account.data_bytes, λ e. refl, λ e. refl, λ e. cc)

status_of_program-IsCoherent :
    (kit : AddressCodec) (rpc : StatusRpc) (found : Option (List ℕ)) (status : ProgramStatus)
    → status_of_program kit rpc found ≡ ok status
    → IsCoherent status
status_of_program-IsCoherent kit rpc none status h =
    subst IsCoherent (ok_inj h) (λ e. cc, λ e. cc, λ e. cc, λ e. refl)
status_of_program-IsCoherent kit rpc (some data_bytes) status h =
    let address =
      kit.decode
        (slice program_data_offset (program_data_offset + program_data_address_len) data_bytes) in
    let (found, asked, rest) =
      >>=-eq-ok (rpc.get_account_info address)
        (λ found. ok (status_of_program_data kit rpc address found)) h in
    subst IsCoherent (ok_inj rest) (status_of_program_data-IsCoherent kit rpc address found)

-- Every status that `checkProgramStatus` returns, whatever bytes the accounts hold: an upgrade
-- authority is named only for an upgradeable program, an upgradeable program is deployed, a deployed
-- program has the address of its data account, and a program that is not deployed has nothing else.
pub check_program_status-IsCoherent :
    (kit : AddressCodec) (rpc : StatusRpc) (program : String) (status : ProgramStatus)
    → check_program_status kit rpc program ≡ ok status
    → IsCoherent status
unfolding check_program_status
check_program_status-IsCoherent kit rpc program status h =
    let (account, asked, rest) =
      >>=-eq-ok (rpc.get_account_info program)
        (λ account. status_of_program kit rpc (program_account kit rpc account)) h in
    status_of_program-IsCoherent kit rpc (program_account kit rpc account) status rest
