-- ===== src/Deploy/Writing.antt =====
-- webapp/src/hooks/use-program-deploy.ts: `writeChunks`, `transferBufferAuthority` and
-- `getBufferAuthority`.
use multi_delegator.Base.{
  ℕ, zero, suc, ◌+◌, ◌-◌, ◌*◌, ◌%◌, String, Bool, false, ◌&&◌, Option, none, some, List, [], ◌∷◌,
  ltb, leb, ◌==◌, if◌then◌else◌, or_else, length, get_elem?, slice,
}
use multi_delegator.Base.Int.{pos}
use multi_delegator.Base.Result.{Result, ok, throw}
use multi_delegator.Js.Decimal.{template, to_string}
use multi_delegator.Client.HookMetas.{begins_with}
use multi_delegator.Client.Types.{Instruction, Signer}
use multi_delegator.Loader.Browser.{build_write_ix, build_set_authority_ix}
use multi_delegator.Deploy.Action.{
  Action, pure, raise, lift, send, wait, Network, ◌>>=◌, try_catch, set_progress, build_v0_tx,
  latest_blockhash, account_info, phase_writing,
}
use multi_delegator.Deploy.Funding.{poll}
use multi_delegator.Loader.{chunk_size}
use multi_delegator.Loader.Plan.{DeployPlan}

-- `${n}`
abbrev decimal : ℕ → String
decimal n = to_string (pos n)

-- `data.length >= 37 && data[4] === 1`
abbrev pub has_authority : List ℕ → Bool
has_authority data_bytes = leb 37 (length data_bytes) && or_else (get_elem? data_bytes 4) 0 == 1

abbrev pub authority_not_confirmed : String
authority_not_confirmed = "Buffer authority transfer not confirmed after 30s"

abbrev pub not_recoverable : String
not_recoverable = "Buffer account is not in a recoverable buffer state"

module _ (net : Network) where
  abbrev chunk_error : (i total_chunks : ℕ) → Result (List ℕ) → Result (List ℕ)
  chunk_error i total_chunks (ok bytes) = ok bytes
  chunk_error i total_chunks (throw message) = throw (
      template
        ("Failed to decode chunk " ∷ decimal i ∷ "/" ∷ decimal total_chunks ∷ ": " ∷ message ∷ []))

  -- `Uint8Array.from(atob(plan.chunks[i]), …)`, for a missing chunk as well
  unfoldable pub chunk_bytes : DeployPlan → (i total_chunks : ℕ) → Result (List ℕ)
  chunk_bytes plan i total_chunks = chunk_error i total_chunks (net.atob (get_elem? plan.chunks i))

  -- The attempts at one write; the value is the blockhash to go on with.
  unfoldable pub write_attempts : (attempts : ℕ) → Signer → String → Instruction → Action String
  write_attempts zero fee_payer blockhash ix = pure blockhash
  write_attempts (suc left) fee_payer blockhash ix =
      let again = do _ ← wait; fresh ← latest_blockhash net; write_attempts left fee_payer fresh ix
      in try_catch
        (send net (build_v0_tx fee_payer blockhash (ix ∷ [])) >>= λ signature. pure blockhash)
        (λ message. if left == 0 then raise message else again)

  -- every thirtieth chunk after the first takes a fresh blockhash
  abbrev pub blockhash_for : (done : ℕ) → String → Action String
  blockhash_for done blockhash =
      if ltb 0 done && done % 30 == 0 then latest_blockhash net else pure blockhash

  unfoldable pub write_instruction : Signer → ℕ → List ℕ → Instruction
  write_instruction buffer i bytes =
      build_write_ix net.add_signers buffer.address buffer (i * chunk_size) bytes

  module _ (plan : DeployPlan) (buffer fee_payer : Signer) (total_chunks : ℕ) where
    -- chunk `i`, with `done` chunks written before it by this call
    unfoldable pub write_chunk : (done i : ℕ) → String → Action String
    unfolding chunk_bytes write_attempts write_instruction set_progress
    write_chunk done i blockhash = do
      _ ←
          set_progress (i + 1)
            (template
              ("Writing program data: " ∷ decimal (i + 1) ∷ "/" ∷ decimal total_chunks ∷ []))
            phase_writing total_chunks
      current ← blockhash_for done blockhash
      bytes ← lift (chunk_bytes plan i total_chunks)
      write_attempts 3 fee_payer current (write_instruction buffer i bytes)

    -- the loop, with `remaining` rounds left
    unfoldable pub write_loop : (remaining done i : ℕ) → String → Action Unit
    unfolding write_chunk
    write_loop zero done i blockhash = pure tt
    write_loop (suc remaining) done i blockhash =
        write_chunk done i blockhash >>= write_loop remaining (done + 1) (i + 1)

    unfoldable pub write_chunks : (start_chunk : ℕ) → Action Unit
    unfolding write_loop
    write_chunks start_chunk =
        latest_blockhash net >>= write_loop (total_chunks - start_chunk) 0 start_chunk

  abbrev decoded_account : Option String → Result (Option (List ℕ))
  decoded_account none = ok none
  decoded_account (some text) = result_of (net.atob (some text))
    where
      result_of : Result (List ℕ) → Result (Option (List ℕ))
      result_of (ok bytes) = ok (some bytes)
      result_of (throw message) = throw message

  -- the account's bytes, if there is one
  abbrev account_bytes : String → Action (Option (List ℕ))
  account_bytes address = do found ← account_info net address; lift (decoded_account found)

  abbrev names_authority : List ℕ → Option (List ℕ) → Bool
  names_authority expected none = false
  names_authority expected (some data_bytes) =
      has_authority data_bytes && begins_with (slice 5 37 data_bytes) expected

  abbrev authority_is : (buffer authority : String) → Action Bool
  authority_is buffer authority = do
    found ← account_bytes buffer
    pure (names_authority (net.codec.encode authority) found)

  unfoldable pub transfer_buffer_authority : (signer buffer fee_payer : Signer) → Action Unit
  unfolding poll
  transfer_buffer_authority signer buffer fee_payer = do
    blockhash ← latest_blockhash net
    _ ← send net (
        build_v0_tx fee_payer blockhash
          (build_set_authority_ix net.add_signers buffer.address buffer (some signer.address) ∷ []))
    poll 30 (authority_is buffer.address signer.address) authority_not_confirmed

  abbrev authority_of : Option (List ℕ) → Result (Option String)
  authority_of none = ok none
  authority_of (some data_bytes) =
      if has_authority data_bytes
      then ok (some (net.decode_base58 (slice 5 37 data_bytes)))
      else throw not_recoverable

  unfoldable pub get_buffer_authority : String → Action (Option String)
  get_buffer_authority buffer_address = do
    found ← account_bytes buffer_address
    lift (authority_of found)
