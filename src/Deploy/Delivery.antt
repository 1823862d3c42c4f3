-- ===== src/Deploy/Delivery.antt =====
-- webapp/src/hooks/use-program-deploy.ts and webapp/api/lib/deploy-builder.ts: a program that is cut
-- into a plan, written by `writeChunks` and run by the loader arrives whole.
use multi_delegator.Base.{
  ℕ, zero, suc, ◌+◌, ◌-◌, ◌*◌, ◌^◌, ◌≤◌, ◌<◌, String, ◌≡◌, refl, sym, ap, ◌∙◌, some, List, ◌++◌,
  arith, length, get_elem?, take,
}
use multi_delegator.Base.Result.{ok, >>=-eq-ok, ok_inj}
use multi_delegator.Deploy.Upload.{
  KeepsLayout, run_writes, get_elem?-chunks_from, run_writes_complete,
}
use multi_delegator.Client.Types.{Instruction, Signer}
use mathlib.Core.Path.{subst}
use multi_delegator.Deploy.Action.{Network, World}
use multi_delegator.Deploy.Adding.{accepted}
use multi_delegator.Deploy.Outcome.{OnReturn}
use multi_delegator.Deploy.Writing.{write_chunks}
use multi_delegator.Loader.{chunk_size}
use multi_delegator.Loader.Plan.{
  DeployPlan, Platform, total_chunks_of, chunk_at, chunks_from, chunk_so_bytes, build_deploy_plan,
  plan_at,
}
use multi_delegator.Deploy.Written.{chunk_writes, write_chunks-Writes}

length-chunks_from :
    (os : Platform) (remaining : ℕ) (so_bytes : List ℕ) (i : ℕ)
    → length (chunks_from os remaining so_bytes i) ≡ remaining
unfolding chunks_from
length-chunks_from os zero so_bytes i = refl
length-chunks_from os (suc remaining) so_bytes i =
    omega (arith, length-chunks_from os remaining so_bytes (i + 1))

abbrev PlanOf : Platform → List ℕ → DeployPlan → Type 0
PlanOf os so_bytes plan =
    (plan.chunks ≡ chunk_so_bytes os so_bytes)
    × (plan.total_chunks ≡ total_chunks_of (length so_bytes))
    × (plan.so_size ≡ length so_bytes)

build_deploy_plan-PlanOf :
    (os : Platform) (so_bytes : List ℕ) (program_address : String) (plan : DeployPlan)
    → build_deploy_plan os so_bytes program_address ≡ ok plan
    → PlanOf os so_bytes plan
unfolding build_deploy_plan chunk_so_bytes
build_deploy_plan-PlanOf os so_bytes program_address plan built =
    let (buffer_address, found, rest) =
      >>=-eq-ok (os.address_from_public_key os.public_key)
        (λ address. ok (plan_at os so_bytes program_address address)) built in
    let same = sym (ok_inj rest) in
    (
      ap (λ p. p.chunks) same,
      ap (λ p. p.total_chunks) same ∙ length-chunks_from os _ so_bytes 0,
      ap (λ p. p.so_size) same,
    )

module _ (net : Network) (os : Platform) (buffer fee_payer : Signer) (so_bytes : List ℕ)
    (keeps : KeepsLayout net.add_signers)
    (decodes : (i : ℕ)
      → i < total_chunks_of (length so_bytes)
      → net.atob (some (os.to_base64 (chunk_at so_bytes i))) ≡ ok (chunk_at so_bytes i))
    (so_fits : length so_bytes < 2 ^ 32) where
  decoded :
      (plan : DeployPlan)
      → PlanOf os so_bytes plan
      → (i : ℕ) → i < plan.total_chunks
      → net.atob (get_elem? plan.chunks i) ≡ ok (chunk_at so_bytes i)
  unfolding chunk_so_bytes
  decoded plan (chunks, total, size) i within =
      let plain : 0 + i ≡ i = omega arith in
      let below : i < total_chunks_of (length so_bytes) = omega (arith, within, total) in
      ap (λ c. net.atob (get_elem? c i)) chunks
      ∙ ap net.atob
          (get_elem?-chunks_from os so_bytes (total_chunks_of (length so_bytes)) 0 i below)
      ∙ ap (λ k. net.atob (some (os.to_base64 (chunk_at so_bytes k)))) plain
      ∙ decodes i below

  -- The chunks of a plan that the API built from a program, written from `start` on: when
  -- `writeChunks` returns, every instruction of the transactions that the network took in this call
  -- is a write of the loader to the buffer account, with the buffer's own key as its authority, and
  -- in order they turn an account of the program's size that holds the chunks before `start` into
  -- the whole program. The kit's `addSignersToInstruction` keeps an instruction's program, data and
  -- accounts, `atob` undoes base64 on the program's chunks, and the program is shorter than 2 ^ 32
  -- bytes.
  pub write_chunks-uploads :
      (plan : DeployPlan) (program_address : String) (start : ℕ) (data_bytes : List ℕ)
      (w after : World)
      → build_deploy_plan os so_bytes program_address ≡ ok plan
      → start ≤ plan.total_chunks
      → length data_bytes ≡ length so_bytes
      → take (start * chunk_size) data_bytes ≡ take (start * chunk_size) so_bytes
      → write_chunks net plan buffer fee_payer plan.total_chunks start w ≡ (ok tt, after)
      → (written : List (List Instruction)) × (accepted after.log ≡ accepted w.log ++ written)
        × (run_writes buffer.address buffer.address written data_bytes ≡ some so_bytes)
  write_chunks-uploads plan program_address start data_bytes w after built within same begun
        returned =
      let planned = build_deploy_plan-PlanOf os so_bytes program_address plan built in
      let added =
        (write_chunks-Writes net plan buffer fee_payer plan.total_chunks so_bytes
            (decoded plan planned) start within).writes
          w in
      (
        chunk_writes net buffer so_bytes (plan.total_chunks - start) start,
        subst
            (OnReturn (λ a v.
              accepted v.log
              ≡ accepted w.log
                ++ chunk_writes net buffer so_bytes (plan.total_chunks - start) start))
            returned added,
        subst
            (λ total.
              start ≤ total
              → run_writes buffer.address buffer.address
                  (chunk_writes net buffer so_bytes (total - start) start) data_bytes
                ≡ some so_bytes)
            (sym planned.1)
            (λ bound.
              run_writes_complete net buffer so_bytes keeps so_fits start data_bytes bound same
                begun)
            within,
      )
