-- ===== src/Deploy/Action.antt =====
-- webapp/src/hooks/use-program-deploy.ts: the state of the hook, the network, and the asynchronous
-- code over both. What the network answers is any function of the requests made before.
use multi_delegator.Base.{ℕ, String, Option, none, List, [], ◌∷◌, ◌++◌}
use multi_delegator.Base.Result.{Result, ok, throw}
use multi_delegator.Client.Types.{Instruction, Signer}
use multi_delegator.Loader.{AddressCodec}
use multi_delegator.Loader.Plan.{DeployPlan}

pub data DeployPhase : Type 0 where
  phase_deploying phase_done phase_error phase_funding phase_init phase_preparing phase_writing :
      DeployPhase

pub record DeployProgress : Type 0 where
  pub current : ℕ
  pub message : String
  pub phase : DeployPhase
  pub total : ℕ

-- a transaction: who pays for it, the blockhash that it lives by, and its instructions
pub record Transaction : Type 0 where
  pub fee_payer : Signer
  pub blockhash : String
  pub instructions : List Instruction

-- What the hook does outside itself, in order.
pub data Event : Type 0 where
  plan_prepared key_generated blockhash_asked waited : Event
  rent_asked : ℕ → Event
  balance_asked account_asked : String → Event
  simulated : Transaction → Event
  sent : Transaction → Result String → Event

-- The API, the RPC, the wallet and the platform. Signing is part of sending: both may throw.
pub record Network : Type 0 where
  pub prepare_deploy : List Event → Option String → Result DeployPlan
  pub generate_signer : List Event → Result Signer
  pub create_keypair_signer : List ℕ → Result Signer
  pub get_rent : List Event → ℕ → Result ℕ
  pub get_balance : List Event → String → Result ℕ
  pub get_latest_blockhash : List Event → Result String
  pub get_account_info : List Event → String → Result (Option String)
  pub simulate_transaction : List Event → Transaction → Result (Option String)
  pub send_transaction : List Event → Transaction → Result String
  pub atob : Option String → Result (List ℕ)
  pub sol_text : ℕ → String
  pub decode_base58 : List ℕ → String
  pub codec : AddressCodec
  pub add_signers : List Signer → Instruction → Instruction

-- the three refs
pub record RecoveryRefs : Type 0 where
  pub last_plan : Option DeployPlan
  pub buffer_signer : Option Signer
  pub fee_payer : Option Signer

pub record World : Type 0 where
  pub refs : RecoveryRefs
  pub progress : DeployProgress
  pub log : List Event

abbrev pub Action : Type 0 → Type 0
Action A = World → Result A × World

abbrev pub go_on : {A B : Type 0} → Result A × World → (A → Action B) → Result B × World
go_on (throw message, w) next = (throw message, w)
go_on (ok a, w) next = next a w

infixl 5 ◌>>=◌
unfoldable pub ◌>>=◌ : {A B : Type 0} → Action A → (A → Action B) → Action B
(act >>= next) w = go_on (act w) next

unfoldable pub pure : {A : Type 0} → A → Action A
pure a w = (ok a, w)

unfoldable pub raise : {A : Type 0} → String → Action A
raise message w = (throw message, w)

-- a value that is there, or what computing it throws
unfoldable pub lift : {A : Type 0} → Result A → Action A
lift answer w = (answer, w)

abbrev pub or_handle : {A : Type 0} → Result A × World → (String → Action A) → Result A × World
or_handle (ok a, w) handler = (ok a, w)
or_handle (throw message, w) handler = handler message w

-- `try { … } catch (e) { … }`
unfoldable pub try_catch : {A : Type 0} → Action A → (String → Action A) → Action A
try_catch act handler w = or_handle (act w) handler

abbrev pub wallet_not_connected : String
wallet_not_connected = "Wallet not connected"

abbrev pub note : Event → World → World
note event w = record w { log = w.log ++ event ∷ [] }

-- a request with its answer
unfoldable pub ask : {A : Type 0} → Event → (List Event → Result A) → Action A
ask event answer w = (answer w.log, note event w)

unfoldable pub set_progress : ℕ → String → DeployPhase → ℕ → Action Unit
set_progress current message phase total w = (
  ok tt,
  record w {
    progress = record { current = current; message = message; phase = phase; total = total };
  },
)

abbrev pub no_refs : RecoveryRefs
no_refs = record { last_plan = none; buffer_signer = none; fee_payer = none }

unfoldable pub clear_recovery_refs : Action Unit
clear_recovery_refs w = (ok tt, record w { refs = no_refs })

abbrev pub build_v0_tx : Signer → String → List Instruction → Transaction
build_v0_tx payer blockhash instructions = record {
  fee_payer = payer;
  blockhash = blockhash;
  instructions = instructions;
}

-- `await new Promise(r => setTimeout(r, …))`
unfoldable pub wait : Action Unit
wait = ask waited (λ log. ok tt)

module _ (net : Network) where
  abbrev pub rent : ℕ → Action ℕ
  rent space = ask (rent_asked space) (λ log. net.get_rent log space)

  abbrev pub balance : String → Action ℕ
  balance address = ask (balance_asked address) (λ log. net.get_balance log address)

  abbrev pub latest_blockhash : Action String
  latest_blockhash = ask blockhash_asked net.get_latest_blockhash

  abbrev pub account_info : String → Action (Option String)
  account_info address = ask (account_asked address) (λ log. net.get_account_info log address)

  abbrev pub simulate : Transaction → Action (Option String)
  simulate tx = ask (simulated tx) (λ log. net.simulate_transaction log tx)

  -- the transaction is signed and sent; the log keeps the answer
  unfoldable pub send : Transaction → Action String
  send tx w = (net.send_transaction w.log tx, note (sent tx (net.send_transaction w.log tx)) w)
