-- ===== src/Tests/Deploying.antt =====
-- Tests of the loader and of the deployment, and witnesses of what is proved of them.
use multi_delegator.Base.{
  ℕ, zero, suc, ◌+◌, ◌<◌, String, ◌≡◌, refl, ap, ◌⊎◌, true, false, Option, none, some, List, [],
  ◌∷◌, ◌++◌, arith, str_eq, ltb, if◌then◌else◌, is_some, length, get_elem?,
}
use multi_delegator.Base.Result.{Result, ok, throw}
use multi_delegator.Deploy.Progressing.{once_failed, write_chunks-returns}
use multi_delegator.Deploy.Written.{chunk_writes}
use multi_delegator.Deploy.Action.{
  sent, waited, blockhash_asked, rent_asked, balance_asked, account_asked, simulated, plan_prepared,
  key_generated, Transaction, Event, Network, World, ◌>>=◌, pure, raise, lift, try_catch, ask,
  set_progress, no_refs, clear_recovery_refs, wait, send, phase_done, phase_preparing,
}
use multi_delegator.Deploy.Upload.{KeepsLayout, run_writes}
use multi_delegator.Deploy.Laws.{IsKept, deploy-keeps_recovery}
use multi_delegator.Loader.Inspect.{check_program_status, ProgramStatus, StatusRpc, deploy_time_at}
use multi_delegator.Deploy.Run.{
  deploy, DeployMutationInput, DeployResult, store_fee_payer, get_fee_payer, hand_over,
  upload_and_finish, deploy_connected,
}
use multi_delegator.Deploy.Keeping.{sends}
use multi_delegator.Deploy.Adding.{accepted}
use multi_delegator.Loader.Browser
use multi_delegator.Client.Types.{Signer, Instruction}
use multi_delegator.Loader.{AddressCodec, build_write_ix, derive_program_data_address}
use multi_delegator.Loader.Plan.{
  DeployPlan, Platform, total_chunks_of, chunk_at, chunks_from, chunk_so_bytes,
  generate_keypair_bytes, build_deploy_plan,
}
use multi_delegator.Loader.WriteData.{read_write, read_write-build_write_ix}
use multi_delegator.Client.HookMetas.{begins_with}
use multi_delegator.Deploy.Writing.{
  chunk_bytes, write_attempts, write_chunk, write_loop, write_chunks, transfer_buffer_authority,
}
use multi_delegator.Deploy.Delivery.{write_chunks-uploads}
use multi_delegator.Deploy.Funding.{
  store_plan, close_first, fee_budget, fetch_new_plan, fetch_or_resume_plan, send_with_blockhash,
  fund_new_buffer, fund_buffer_and_fee_payer, poll,
}
use multi_delegator.Deploy.Outcome.{deploy-refuses, deploy-clears_recovery}
use multi_delegator.Deploy.Finishing.{
  final_instructions, pre_simulate, finalize_deployment, reclaim_fee_payer_sol,
}
use multi_delegator.Loader.Inspect.Laws.{
  program_account_data, program_data, check_program_status-deployed, IsCoherent,
  check_program_status-IsCoherent,
}

abbrev pub wallet : Signer
wallet = record { ref = 0; address = "wallet" }

abbrev pub buffer_key : Signer
buffer_key = record { ref = 1; address = "buffer" }

abbrev pub payer_key : Signer
payer_key = record { ref = 2; address = "payer" }

abbrev pub codes_32 : List ℕ
codes_32 =
    0 ∷ 1 ∷ 2 ∷ 3 ∷ 4 ∷ 5 ∷ 6 ∷ 7 ∷ 8 ∷ 9 ∷ 10 ∷ 11 ∷ 12 ∷ 13 ∷ 14 ∷ 15 ∷ 16 ∷ 17 ∷ 18 ∷ 19 ∷ 20
    ∷ 21 ∷ 22 ∷ 23 ∷ 24 ∷ 25 ∷ 26 ∷ 27 ∷ 28 ∷ 29 ∷ 30 ∷ 31 ∷ []

abbrev pub codec_32 : AddressCodec
codec_32 = record {
  encode = λ address. codes_32;
  decode = λ bytes. "program data";
  get_program_derived_address = λ program seeds. ok "program data";
}

abbrev pub program_bytes : List ℕ
program_bytes = 127 ∷ 69 ∷ 76 ∷ 70 ∷ []

abbrev pub platform : Platform
platform = record {
  private_key = 1 ∷ 2 ∷ [];
  public_key = 3 ∷ 4 ∷ [];
  sha256_hex = λ bytes. "digest";
  to_base64 = λ bytes. "f0VMRg==";
  address_from_public_key = λ bytes. ok "buffer";
}

-- a network that takes every transaction but the first, which is not paid for
abbrev second_time : List Event → Transaction → Result String
second_time [] tx = throw "blockhash not found"
second_time (event ∷ []) tx = throw "blockhash not found"
second_time (event ∷ next ∷ log) tx = ok "signature"

abbrev pub plan_made : DeployPlan
plan_made = record {
  buffer_keypair = 1 ∷ 2 ∷ 3 ∷ 4 ∷ [];
  buffer_address = "buffer";
  chunks = "f0VMRg==" ∷ [];
  total_chunks = 1;
  program_address = "program";
  so_hash = "digest";
  so_size = 4;
}

-- the buffer account with the wallet as its authority, or the only chunk
abbrev pub decode_text : Option String → Result (List ℕ)
decode_text none = throw "nothing to decode"
decode_text (some text) =
    if str_eq text "buffer account" then ok (1 ∷ 0 ∷ 0 ∷ 0 ∷ 1 ∷ codes_32) else ok program_bytes

abbrev pub network : (List Event → Transaction → Result String) → Network
network send_transaction = record {
  prepare_deploy = λ log program. ok plan_made;
  generate_signer = λ log. ok payer_key;
  create_keypair_signer = λ bytes. ok buffer_key;
  get_rent = λ log space. ok 1000;
  get_balance = λ log address. ok 500000;
  get_latest_blockhash = λ log. ok "blockhash";
  get_account_info = λ log address. ok (some "buffer account");
  simulate_transaction = λ log tx. ok none;
  send_transaction = send_transaction;
  atob = decode_text;
  sol_text = λ lamports. "0.0005";
  decode_base58 = λ bytes. "wallet";
  codec = codec_32;
  add_signers = λ signers ix. ix;
}

abbrev pub start_world : World
start_world = record {
  refs = no_refs;
  progress = record { current = 0; message = ""; phase = phase_preparing; total = 0 };
  log = [];
}

abbrev upgrade : DeployMutationInput
upgrade = record {
  is_upgrade = true;
  program_address = some "program";
  program_keypair_bytes = none;
  resume_from = none;
}

abbrev pub takes_all : List Event → Transaction → Result String
takes_all log tx = ok "signature"

abbrev no_rent : Network
no_rent = record (network takes_all) { get_rent = λ log space. throw "rent" }

abbrev failed_world : World
failed_world = record {
  refs = record {
    last_plan = some plan_made;
    buffer_signer = some buffer_key;
    fee_payer = some payer_key;
  };
  progress = record {
    current = 0;
    message = "Fetching program data...";
    phase = phase_preparing;
    total = 0;
  };
  log = plan_prepared ∷ key_generated ∷ rent_asked 0 ∷ [];
}

failed_run : deploy no_rent (some wallet) upgrade start_world ≡ (throw "rent", failed_world)
unfolding deploy deploy_connected fetch_or_resume_plan fetch_new_plan store_plan get_fee_payer
    store_fee_payer upload_and_finish fund_buffer_and_fee_payer set_progress ◌>>=◌ pure lift ask
failed_run = refl

deploy-keeps_recovery_example :
    (sends failed_world.log ≡ []) ⊎ IsKept no_rent (some wallet) upgrade [] failed_world
deploy-keeps_recovery_example =
    deploy-keeps_recovery no_rent (some wallet) upgrade start_world failed_world "rent" failed_run

deploy-refuses_example :
    let (answer, after) = deploy no_rent (some wallet) upgrade failed_world in
    (answer ≡ throw close_first) × (after.log ≡ failed_world.log) × (after.refs ≡ failed_world.refs)
deploy-refuses_example =
    deploy-refuses no_rent (some wallet) upgrade failed_world refl
      (λ same. let held = ap (λ refs. is_some refs.last_plan) same in cc)

abbrev done_world : World
unfolding deploy deploy_connected fetch_or_resume_plan fetch_new_plan store_plan get_fee_payer
    store_fee_payer upload_and_finish fund_buffer_and_fee_payer set_progress ◌>>=◌ pure lift ask
done_world = (deploy (network takes_all) (some wallet) upgrade start_world).1

abbrev done_result : DeployResult
done_result = record { program_address = "program"; signature = "signature" }

done_run :
    deploy (network takes_all) (some wallet) upgrade start_world ≡ (ok done_result, done_world)
unfolding deploy deploy_connected fetch_or_resume_plan fetch_new_plan store_plan get_fee_payer
    store_fee_payer upload_and_finish fund_buffer_and_fee_payer fund_new_buffer send_with_blockhash
    poll write_chunks write_loop write_chunk write_attempts chunk_bytes hand_over
    transfer_buffer_authority finalize_deployment final_instructions pre_simulate
    derive_program_data_address reclaim_fee_payer_sol clear_recovery_refs begins_with raise
    try_catch send wait fee_budget set_progress ◌>>=◌ pure lift ask
done_run = refl

deploy-clears_recovery_example :
    (done_world.refs ≡ no_refs) × (done_world.progress.phase ≡ phase_done)
deploy-clears_recovery_example =
    deploy-clears_recovery (network takes_all) (some wallet) upgrade start_world done_world
      done_result done_run

only_chunk :
    (i : ℕ) → i < 1 → decode_text (get_elem? plan_made.chunks i) ≡ ok (chunk_at program_bytes i)
only_chunk zero within = refl
only_chunk (suc i) within = absurd (omega (arith, within))

only_bytes :
    (i : ℕ)
    → i < total_chunks_of (length program_bytes)
    → decode_text (some "f0VMRg==") ≡ ok (chunk_at program_bytes i)
only_bytes zero within = refl
only_bytes (suc i) within = absurd (omega (arith, within))

plan_run : build_deploy_plan platform program_bytes "program" ≡ ok plan_made
unfolding build_deploy_plan chunk_so_bytes chunks_from generate_keypair_bytes
plan_run = refl

abbrev written_world : World
written_world =
    (write_chunks (network second_time) plan_made buffer_key payer_key 1 0 start_world).1

written_run :
    write_chunks (network second_time) plan_made buffer_key payer_key 1 0 start_world
    ≡ (ok tt, written_world)
unfolding write_chunks write_loop write_chunk write_attempts chunk_bytes raise try_catch send wait
    set_progress ◌>>=◌ pure lift ask
written_run = refl

-- a network that refuses the first two transactions
abbrev refused : List Event → ℕ
refused [] = 0
refused (sent tx (throw message) ∷ log) = suc (refused log)
refused (event ∷ log) = refused log

abbrev takes_third : List Event → Transaction → Result String
takes_third log tx = if ltb (refused log) 2 then throw "blockhash not found" else ok "signature"

refused-append : (log more : List Event) → refused (log ++ more) ≡ refused log + refused more
refused-append [] more = omega arith
refused-append (sent tx (throw message) ∷ log) more = omega (arith, refused-append log more)
refused-append (sent tx (ok signature) ∷ log) more = refused-append log more
refused-append (plan_prepared ∷ log) more = refused-append log more
refused-append (key_generated ∷ log) more = refused-append log more
refused-append (blockhash_asked ∷ log) more = refused-append log more
refused-append (waited ∷ log) more = refused-append log more
refused-append (rent_asked space ∷ log) more = refused-append log more
refused-append (balance_asked address ∷ log) more = refused-append log more
refused-append (account_asked address ∷ log) more = refused-append log more
refused-append (simulated tx ∷ log) more = refused-append log more

refused-once_failed :
    (log : List Event) (tx : Transaction) (message : String)
    → refused (once_failed log tx message) ≡ refused log + 1
refused-once_failed log tx message =
    let failed = log ++ sent tx (throw message) ∷ [] in
    omega (
      arith,
      refused-append (failed ++ waited ∷ []) (blockhash_asked ∷ []),
      refused-append failed (waited ∷ []),
      refused-append log (sent tx (throw message) ∷ []),
    )

takes_third_taken :
    (log : List Event) (first second third : Transaction) (m n : String)
    → (s : String) × (takes_third (once_failed (once_failed log first m) second n) third ≡ ok s)
takes_third_taken log first second third m n = (
  "signature",
  ground (
    arith,
    refused-once_failed (once_failed log first m) second n,
    refused-once_failed log first m,
  ),
)

write_chunks-returns_example :
    (after : World) × (write_chunks
        (network takes_third)
        plan_made
        buffer_key
        payer_key
        1
        0
        start_world
      ≡ (ok tt, after))
    × (accepted after.log ≡ chunk_writes (network takes_third) buffer_key program_bytes 1 0)
write_chunks-returns_example =
    write_chunks-returns (network takes_third) (λ log. ("blockhash", refl)) takes_third_taken
      plan_made buffer_key payer_key 1 program_bytes only_chunk 0 start_world (omega arith)

plain_KeepsLayout : KeepsLayout (λ signers ix. ix)
plain_KeepsLayout = record {
  data_kept = λ signers ix. refl;
  program_kept = λ signers ix. refl;
  layout_kept = λ signers ix. refl;
}

write_chunks-uploads_example :
    (written : List (List Instruction)) × (accepted written_world.log ≡ written)
    × (run_writes "buffer" "buffer" written (0 ∷ 0 ∷ 0 ∷ 0 ∷ []) ≡ some program_bytes)
write_chunks-uploads_example =
    write_chunks-uploads (network second_time) platform buffer_key payer_key program_bytes
      plain_KeepsLayout only_bytes (omega arith) plan_made "program" 0 (0 ∷ 0 ∷ 0 ∷ 0 ∷ [])
      start_world written_world plan_run (omega arith) refl refl written_run

read_write-build_write_ix_example :
    (read_write
        (Browser.build_write_ix (λ signers ix. ix) "buffer" wallet 900 program_bytes).data_bytes
      ≡ some (900, program_bytes))
    × (read_write (build_write_ix "buffer" "wallet" 900 program_bytes).data_bytes
        ≡ some (900, program_bytes))
read_write-build_write_ix_example =
    read_write-build_write_ix (λ signers ix. ix) "buffer" wallet 900 program_bytes
      (λ signers ix. refl) (omega arith) (omega arith)

-- the two accounts of a program that was deployed at slot 7
abbrev status_rpc : StatusRpc
status_rpc = record {
  get_account_info = λ address.
      if str_eq address "program"
      then ok (
          some (record {
            data_bytes = program_account_data codec_32 "program data";
            executable = true;
          }))
      else ok (
          some (record {
            data_bytes = program_data codec_32 7 none program_bytes;
            executable = false;
          }));
  get_block_time = λ slot. throw "no block time";
}

abbrev deployed_status : ProgramStatus
deployed_status = record {
  deployed = true;
  upgradeable = false;
  upgrade_authority = none;
  last_deploy_slot = some 7;
  last_deploy_time = none;
  program_data_address = some "program data";
  data_size = some 4;
}

check_program_status-deployed_example :
    check_program_status codec_32 status_rpc "program" ≡ ok deployed_status
unfolding deploy_time_at
check_program_status-deployed_example =
    check_program_status-deployed codec_32 status_rpc "program" "program data" 7 none program_bytes
      (omega arith) (refl, refl) tt refl refl

deployed_run : check_program_status codec_32 status_rpc "program" ≡ ok deployed_status
unfolding deploy_time_at
deployed_run =
    check_program_status-deployed codec_32 status_rpc "program" "program data" 7 none program_bytes
      (omega arith) (refl, refl) tt refl refl

check_program_status-IsCoherent_example : IsCoherent deployed_status
check_program_status-IsCoherent_example =
    check_program_status-IsCoherent codec_32 status_rpc "program" deployed_status deployed_run
