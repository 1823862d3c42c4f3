-- ===== src/Mutations/Wallet/Laws.antt =====
-- webapp/src/components/solana/use-wallet-transaction-sign-and-send.tsx: what a call has sent.
use multi_delegator.Base.{String, ◌≡◌, refl, Option, none, some, List, [], ◌∷◌, ◌++◌}
use multi_delegator.Base.Result.{Result, ok, throw}
use text.Mathlib.Text.{starts_with}
use multi_delegator.Client.Types.{Instruction, Signer}
use multi_delegator.Deploy.Action.{note, send, Transaction, Network, World, sent}
use multi_delegator.Deploy.Adding.{
  Writes, accepted, accepted-append, accepted_view, >>=-Writes, Keeps-Writes, ask-Keeps_accepted,
}
use multi_delegator.Deploy.Keeping.{
  Keeps, >>=-Keeps, try_catch-Keeps, if-Keeps, pure-Keeps, raise-Keeps,
}
use multi_delegator.Mutations.Wallet.{sign_and_send, check_simulation, simulation_error}
use multi_delegator.Collect.Send.{simulation_failure_prefix}
use multi_delegator.Deploy.Outcome.{OnReturn}

simulation_error-Keeps : (err : Option String) → Keeps accepted_view (simulation_error err)
simulation_error-Keeps none = pure-Keeps tt
simulation_error-Keeps (some err) = raise-Keeps _

check_simulation-Keeps :
    (net : Network) (tx : Transaction) → Keeps accepted_view (check_simulation net tx)
unfolding check_simulation
check_simulation-Keeps net tx =
    try_catch-Keeps (>>=-Keeps (ask-Keeps_accepted _ _ refl) simulation_error-Keeps) λ message.
      if-Keeps (starts_with message simulation_failure_prefix) (raise-Keeps message) (pure-Keeps tt)

send-OnReturn :
    (answer : Result String) (tx : Transaction) (w : World)
    → OnReturn
        (λ a v. accepted v.log ≡ accepted w.log ++ tx.instructions ∷ [])
        (answer, note (sent tx answer) w)
send-OnReturn (ok signature) tx w = accepted-append w.log (sent tx (ok signature) ∷ [])
send-OnReturn (throw message) tx w = tt

send-Writes : (net : Network) (tx : Transaction) → Writes (tx.instructions ∷ []) (send net tx)
unfolding send
send-Writes net tx = record { writes = λ w. send-OnReturn (net.send_transaction w.log tx) tx w }

-- A call that returns has had one transaction taken, with the instructions it was given.
pub sign_and_send-Writes :
    (net : Network) (instructions : List Instruction) (signer : Signer)
    → Writes (instructions ∷ []) (sign_and_send net instructions signer)
unfolding sign_and_send
sign_and_send-Writes net instructions signer =
    >>=-Writes (Keeps-Writes (ask-Keeps_accepted _ _ refl))
      λ blockhash. >>=-Writes (Keeps-Writes (check_simulation-Keeps net _)) λ _. send-Writes net _
