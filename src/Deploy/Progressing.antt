-- ===== src/Deploy/Progressing.antt =====
-- webapp/src/hooks/use-program-deploy.ts: `writeChunks` returns where no write fails three times.
use multi_delegator.Base.{
  ℕ, zero, suc, ◌+◌, ◌-◌, ◌%◌, ◌≤◌, ◌<◌, String, ◌≡◌, refl, ap, Bool, true, false, ◌&&◌, List, [],
  ◌∷◌, ◌++◌, arith, ltb, ◌==◌, if◌then◌else◌, get_elem?,
}
use multi_delegator.Base.Result.{Result, ok, throw}
use mathlib.Core.Path.{subst}
use multi_delegator.Deploy.Action.{
  wait, waited, blockhash_asked, latest_blockhash, build_v0_tx, DeployPhase, Transaction, Event,
  Network, World, Action, go_on, ◌>>=◌, pure, lift, or_handle, try_catch, note, ask, set_progress,
  send, sent,
}
use multi_delegator.Deploy.Written.{chunk_writes, write_chunks-Writes, chunk_bytes-ok}
use multi_delegator.Deploy.Adding.{accepted}
use multi_delegator.Deploy.Outcome.{OnReturn}
use multi_delegator.Loader.Plan.{chunk_at, DeployPlan}
use mathlib.Core.Path.{subst}
use multi_delegator.Client.Types.{Instruction, Signer}
use multi_delegator.Deploy.Writing.{write_chunks, write_attempts, write_chunk, write_loop}
use mathlib.Core.Path.{subst}

abbrev HasReturned : {A : Type 0} → Result A × World → Type 0
HasReturned {A = A} r = (a : A) × (v : World) × (r ≡ (ok a, v))

record Returns {A : Type 0} (act : Action A) : Type 0 where
  returns : (w : World) → HasReturned (act w)

module _ {A : Type 0} where
  go_on-Returns :
      {B : Type 0} (r : Result B × World) (next : B → Action A)
      → HasReturned r
      → ((b : B) → Returns (next b))
      → HasReturned (go_on r next)
  go_on-Returns r next (b, v, same) rest = rw same ((rest b).returns v)

  >>=-Returns :
      {B : Type 0} {act : Action B} {next : B → Action A}
      → Returns act
      → ((b : B) → Returns (next b))
      → Returns (act >>= next)
  unfolding ◌>>=◌
  >>=-Returns {act = act} {next = next} first rest = record {
    returns = λ w. go_on-Returns (act w) next (first.returns w) rest;
  }

  if-Returns :
      (test : Bool) {on_true on_false : Action A}
      → Returns on_true
      → Returns on_false
      → Returns (if test then on_true else on_false)
  if-Returns true first second = first
  if-Returns false first second = second

  pure-Returns : (a : A) → Returns (pure a)
  unfolding pure
  pure-Returns a = record { returns = λ w. (a, w, refl) }

  lift-Returns : (a : A) (answer : Result A) → answer ≡ ok a → Returns (lift answer)
  unfolding lift
  lift-Returns a answer same = record { returns = λ w. (a, w, ap (λ r. (r, w)) same) }

  ask-Returns :
      (event : Event) (answer : List Event → Result A)
      → ((log : List Event) → (a : A) × (answer log ≡ ok a))
      → Returns (ask event answer)
  unfolding ask
  ask-Returns event answer h = record {
    returns = λ w. let (a, same) = h w.log in (a, note event w, ap (λ r. (r, note event w)) same);
  }

set_progress-Returns :
    (current : ℕ) (message : String) (phase : DeployPhase) (total : ℕ)
    → Returns (set_progress current message phase total)
unfolding set_progress
set_progress-Returns current message phase total = record { returns = λ w. (tt, _, refl) }

-- the log of a write that was sent, failed, and waited for a fresh blockhash
abbrev pub once_failed : List Event → Transaction → String → List Event
once_failed log tx message =
    ((log ++ sent tx (throw message) ∷ []) ++ waited ∷ []) ++ blockhash_asked ∷ []

-- a step that is there goes on
go_on-HasReturned :
    {A B : Type 0} (r : Result B × World) (next : B → Action A) (b : B) (v : World)
    → r ≡ (ok b, v)
    → HasReturned (next b v)
    → HasReturned (go_on r next)
go_on-HasReturned r next b v same rest = rw same rest

-- an attempt at sending, where what follows a failure returns
attempt-HasReturned :
    {A : Type 0} (answer : Result String) (tx : Transaction) (value : A)
    (handler : String → Action A) (w : World)
    → ((message : String)
        → answer ≡ throw message
        → HasReturned (handler message (note (sent tx (throw message)) w)))
    → HasReturned
        (or_handle (go_on (answer, note (sent tx answer) w) (λ signature. pure value)) handler)
unfolding pure
attempt-HasReturned (ok signature) tx value handler w h = (value, _, refl)
attempt-HasReturned (throw message) tx value handler w h = h message refl

module _ (net : Network)
    (answers : (log : List Event) → (b : String) × (net.get_latest_blockhash log ≡ ok b))
    (third_time : (log : List Event) (first second third : Transaction) (m n : String)
      → (s : String) × (net.send_transaction (once_failed (once_failed log first m) second n) third
          ≡ ok s)) where
  -- what follows a failure: the wait, a fresh blockhash, and the attempts that are left
  again-HasReturned :
      (left : ℕ) (fee_payer : Signer) (ix : Instruction) (w : World)
      → ((fresh : String)
          → HasReturned
              (write_attempts net left fee_payer fresh ix (note blockhash_asked (note waited w))))
      → HasReturned (
          (wait >>= λ _.
          latest_blockhash net >>= λ fresh. write_attempts net left fee_payer fresh ix)
            w)
  unfolding wait ask ◌>>=◌
  again-HasReturned left fee_payer ix w rest =
      let (fresh, same) = answers (note waited w).log in
      go_on-HasReturned _ (λ b. write_attempts net left fee_payer b ix) fresh _
        (ap (λ r. (r, note blockhash_asked (note waited w))) same) (rest fresh)

  -- an attempt that others follow
  attempt_before :
      (left : ℕ) (fee_payer : Signer) (blockhash : String) (ix : Instruction) (w : World)
      → ((fresh m : String)
          → HasReturned (
              write_attempts net (suc left) fee_payer fresh ix (
                note blockhash_asked (
                  note waited
                    (note (sent (build_v0_tx fee_payer blockhash (ix ∷ [])) (throw m)) w)))))
      → HasReturned (write_attempts net (suc (suc left)) fee_payer blockhash ix w)
  unfolding write_attempts send try_catch ◌>>=◌
  attempt_before left fee_payer blockhash ix w rest =
      attempt-HasReturned (net.send_transaction w.log (build_v0_tx fee_payer blockhash (ix ∷ [])))
        (build_v0_tx fee_payer blockhash (ix ∷ [])) blockhash _ w
        (λ m _.
          let more : (suc left == 0) ≡ false = ground arith in
          rw more (again-HasReturned (suc left) fee_payer ix _ (λ fresh. rest fresh m)))

  -- the last attempt, where the network takes it
  last_attempt :
      (fee_payer : Signer) (blockhash : String) (ix : Instruction) (w : World) {s : String}
      → net.send_transaction w.log (build_v0_tx fee_payer blockhash (ix ∷ [])) ≡ ok s
      → HasReturned (write_attempts net 1 fee_payer blockhash ix w)
  unfolding write_attempts send try_catch ◌>>=◌ pure
  last_attempt fee_payer blockhash ix w taken = rw taken (blockhash, _, refl)

  -- three attempts are enough
  write_attempts-Returns :
      (fee_payer : Signer) (blockhash : String) (ix : Instruction)
      → Returns (write_attempts net 3 fee_payer blockhash ix)
  write_attempts-Returns fee_payer blockhash ix = record {
    returns = λ w. attempt_before 1 fee_payer blockhash ix w λ fresh m.
        attempt_before 0 fee_payer fresh ix _ λ last n.
          last_attempt fee_payer last ix _
            (third_time w.log (build_v0_tx fee_payer blockhash (ix ∷ []))
              (build_v0_tx fee_payer fresh (ix ∷ [])) (build_v0_tx fee_payer last (ix ∷ [])) m n).1;
  }

  module _ (plan : DeployPlan) (buffer fee_payer : Signer) (total_chunks : ℕ) (so_bytes : List ℕ)
      (decodes : (i : ℕ)
        → i < total_chunks
        → net.atob (get_elem? plan.chunks i) ≡ ok (chunk_at so_bytes i)) where
    write_loop-Returns :
        (remaining done i : ℕ) (blockhash : String)
        → i + remaining ≤ total_chunks
        → Returns (write_loop net plan buffer fee_payer total_chunks remaining done i blockhash)
    unfolding write_loop write_chunk
    write_loop-Returns zero done i blockhash within = pure-Returns tt
    write_loop-Returns (suc remaining) done i blockhash within =
        let decoded = decodes i (omega (arith, within)) in
        let same = chunk_bytes-ok net plan i total_chunks (chunk_at so_bytes i) decoded in
        >>=-Returns
          (>>=-Returns (set_progress-Returns _ _ _ _) λ _.
            >>=-Returns
              (if-Returns (ltb 0 done && done % 30 == 0) (ask-Returns _ _ answers)
                (pure-Returns blockhash))
              λ current.
                >>=-Returns (lift-Returns (chunk_at so_bytes i) _ same)
                  λ _. write_attempts-Returns fee_payer current _)
          (λ next. write_loop-Returns remaining (done + 1) (i + 1) next (omega (arith, within)))

    -- Where every request for a blockhash is answered, a transaction that follows two failures, each
    -- with its wait and its fresh blockhash, is taken, and every chunk of the plan decodes to that
    -- chunk of the program: `writeChunks` returns, from any chunk on and whatever was done before,
    -- and the network has taken the write of every chunk from there on, each once and in order.
    pub write_chunks-returns :
        (start : ℕ) (w : World)
        → start ≤ total_chunks
        → (after : World) × (write_chunks net plan buffer fee_payer total_chunks start w
            ≡ (ok tt, after))
          × (accepted after.log
              ≡ accepted w.log ++ chunk_writes net buffer so_bytes (total_chunks - start) start)
    unfolding write_chunks
    write_chunks-returns start w within =
        let (unit, after, same) =
          (>>=-Returns (ask-Returns _ _ answers) λ blockhash.
              write_loop-Returns (total_chunks - start) 0 start blockhash
                (omega (arith, within))).returns
            w in
        let added =
          (write_chunks-Writes net plan buffer fee_payer total_chunks so_bytes decodes start
              within).writes
            w in
        (
          after,
          same,
          subst
              (OnReturn (λ a v.
                accepted v.log
                ≡ accepted w.log ++ chunk_writes net buffer so_bytes (total_chunks - start) start))
              same added,
        )
