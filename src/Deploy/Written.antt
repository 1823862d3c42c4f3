-- ===== src/Deploy/Written.antt =====
-- webapp/src/hooks/use-program-deploy.ts: what `writeChunks` has written when it returns.
use multi_delegator.Base.{
  ℕ, zero, suc, ◌+◌, ◌-◌, ◌%◌, ◌≤◌, ◌<◌, String, ◌≡◌, refl, ◌∙◌, ◌&&◌, List, [], ◌∷◌, ◌++◌,
  append-nil, arith, ltb, ◌==◌, get_elem?,
}
use multi_delegator.Base.Result.{Result, ok, throw}
use multi_delegator.Client.Types.{Instruction, Signer}
use multi_delegator.Deploy.Action.{
  Action, pure, note, send, ◌>>=◌, go_on, or_handle, Transaction, Network, World, try_catch, sent,
  build_v0_tx,
}
use multi_delegator.Deploy.Keeping.{Keeps, if-Keeps, pure-Keeps}
use mathlib.Core.Path.{subst}
use multi_delegator.Deploy.Outcome.{OnReturn}
use multi_delegator.Deploy.Adding.{
  Writes, accepted, accepted-append, accepted_view, >>=-Writes, Keeps-Writes, lifted-Writes,
  ask-Keeps_accepted, set_progress-Keeps_accepted, raise-Writes, wait-Keeps_accepted, if-Writes,
}
use multi_delegator.Deploy.Writing.{
  write_attempts, chunk_bytes, blockhash_for, write_instruction, write_chunk, write_loop,
  write_chunks,
}
use multi_delegator.Loader.Plan.{DeployPlan, chunk_at}

module _ (net : Network) where
  attempt-OnReturn :
      {A : Type 0} (answer : Result String) (tx : Transaction) (value : A)
      (handler : String → Action A) (w : World)
      → ((message : String) → Writes (tx.instructions ∷ []) (handler message))
      → OnReturn
          (λ a v. accepted v.log ≡ accepted w.log ++ tx.instructions ∷ [])
          (or_handle (go_on (answer, note (sent tx answer) w) (λ signature. pure value)) handler)
  unfolding pure
  attempt-OnReturn (ok signature) tx value handler w h =
      accepted-append w.log (sent tx (ok signature) ∷ [])
  attempt-OnReturn (throw message) tx value handler w h =
      subst
        (λ s.
          OnReturn (λ a v. accepted v.log ≡ s ++ tx.instructions ∷ [])
            (handler message (note (sent tx (throw message)) w)))
        (accepted-append w.log (sent tx (throw message) ∷ []) ∙ append-nil (accepted w.log))
        ((h message).writes (note (sent tx (throw message)) w))

  -- an attempt, with what follows a failure
  attempt-Writes :
      (fee_payer : Signer) (blockhash : String) (ix : Instruction)
      {handler : String → Action String}
      → ((message : String) → Writes ((ix ∷ []) ∷ []) (handler message))
      → Writes ((ix ∷ []) ∷ []) (
          try_catch
            (send net (build_v0_tx fee_payer blockhash (ix ∷ [])) >>= λ signature. pure blockhash)
            handler)
  unfolding send try_catch ◌>>=◌
  attempt-Writes fee_payer blockhash ix {handler} h = record {
    writes =
        λ w. attempt-OnReturn _ (build_v0_tx fee_payer blockhash (ix ∷ [])) blockhash handler w h;
  }

  write_attempts-Writes :
      (left : ℕ) (fee_payer : Signer) (blockhash : String) (ix : Instruction)
      → Writes ((ix ∷ []) ∷ []) (write_attempts net (suc left) fee_payer blockhash ix)
  unfolding write_attempts
  write_attempts-Writes zero fee_payer blockhash ix =
      attempt-Writes fee_payer blockhash ix λ message. raise-Writes _ message
  write_attempts-Writes (suc left) fee_payer blockhash ix =
      attempt-Writes fee_payer blockhash ix λ message.
        if-Writes (suc left == 0) (raise-Writes _ message) (
          >>=-Writes (Keeps-Writes wait-Keeps_accepted) λ _.
            >>=-Writes (Keeps-Writes (ask-Keeps_accepted _ _ refl))
              λ fresh. write_attempts-Writes left fee_payer fresh ix)

  blockhash_for-Keeps :
      (done : ℕ) (blockhash : String) → Keeps accepted_view (blockhash_for net done blockhash)
  blockhash_for-Keeps done blockhash =
      if-Keeps (ltb 0 done && done % 30 == 0) (ask-Keeps_accepted _ _ refl) (pure-Keeps blockhash)

  pub chunk_bytes-ok :
      (plan : DeployPlan) (i total_chunks : ℕ) (bytes : List ℕ)
      → net.atob (get_elem? plan.chunks i) ≡ ok bytes
      → chunk_bytes net plan i total_chunks ≡ ok bytes
  unfolding chunk_bytes
  chunk_bytes-ok plan i total_chunks bytes h = rw h refl

  module _ (buffer : Signer) (so_bytes : List ℕ) where
    -- the write instructions of `remaining` chunks from chunk `i` on, each in its own transaction
    abbrev pub chunk_writes : (remaining i : ℕ) → List (List Instruction)
    chunk_writes zero i = []
    chunk_writes (suc remaining) i =
        (write_instruction net buffer i (chunk_at so_bytes i) ∷ []) ∷ chunk_writes remaining (i + 1)

  module _ (plan : DeployPlan) (buffer fee_payer : Signer) (total_chunks : ℕ)
      (so_bytes : List ℕ) where
    module _
        (decoded : (i : ℕ)
          → i < total_chunks
          → net.atob (get_elem? plan.chunks i) ≡ ok (chunk_at so_bytes i)) where
      write_loop-Writes :
          (remaining done i : ℕ) (blockhash : String)
          → i + remaining ≤ total_chunks
          → Writes
              (chunk_writes buffer so_bytes remaining i)
              (write_loop net plan buffer fee_payer total_chunks remaining done i blockhash)
      unfolding write_loop write_chunk
      write_loop-Writes zero done i blockhash within = Keeps-Writes (pure-Keeps tt)
      write_loop-Writes (suc remaining) done i blockhash within =
          let bytes = chunk_bytes-ok plan i total_chunks _ (decoded i (omega (arith, within))) in
          >>=-Writes
            (>>=-Writes (Keeps-Writes (set_progress-Keeps_accepted _ _ _ _)) λ _.
              >>=-Writes (Keeps-Writes (blockhash_for-Keeps done blockhash))
                λ current. lifted-Writes _ _ _ bytes (write_attempts-Writes 2 fee_payer current _))
            (λ next. write_loop-Writes remaining (done + 1) (i + 1) next (omega (arith, within)))

      pub write_chunks-Writes :
          (start_chunk : ℕ)
          → start_chunk ≤ total_chunks
          → Writes
              (chunk_writes buffer so_bytes (total_chunks - start_chunk) start_chunk)
              (write_chunks net plan buffer fee_payer total_chunks start_chunk)
      unfolding write_chunks
      write_chunks-Writes start_chunk within =
          >>=-Writes (Keeps-Writes (ask-Keeps_accepted _ _ refl)) λ blockhash.
            write_loop-Writes (total_chunks - start_chunk) 0 start_chunk blockhash
              (omega (arith, within))
