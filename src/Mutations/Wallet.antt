-- ===== src/Mutations/Wallet.antt =====
-- webapp/src/components/solana/use-wallet-transaction-sign-and-send.tsx: one transaction, simulated,
-- signed by the wallet and sent.
pub mod Laws
use multi_delegator.Base.{String, Option, none, some, List, [], ◌∷◌, if◌then◌else◌}
use multi_delegator.Base.Result.{Result}
use multi_delegator.Client.Types.{Instruction, Signer}
use multi_delegator.Js.Decimal.{template}
use text.Mathlib.Text.{starts_with}
use multi_delegator.Deploy.Action.{
  Action, pure, raise, send, simulate, ◌>>=◌, Transaction, Network, lift, try_catch, build_v0_tx,
  latest_blockhash,
}
use multi_delegator.Collect.Send.{simulation_failure_prefix}

abbrev simulation_error : Option String → Action Unit
simulation_error none = pure tt
simulation_error (some err) = raise (template ("Transaction simulation failed: " ∷ err ∷ []))

abbrev keep_simulation_error : String → Action Unit
keep_simulation_error message =
    if starts_with message simulation_failure_prefix then raise message else pure tt

module _ (net : Network) where
  -- only a simulation that found an error stops the transaction
  unfoldable pub check_simulation : Transaction → Action Unit
  check_simulation tx = try_catch (simulate net tx >>= simulation_error) keep_simulation_error

  unfoldable pub sign_and_send : List Instruction → Signer → Action String
  unfolding check_simulation
  sign_and_send instructions signer = do
    blockhash ← latest_blockhash net
    let tx = build_v0_tx signer blockhash instructions
    _ ← check_simulation tx
    send net tx

  -- a mutation: the instructions that it builds, sent in one transaction
  abbrev pub submit : Signer → Result (List Instruction) → Action String
  submit signer built = lift built >>= λ instructions. sign_and_send instructions signer
