-- ===== src/Client/Plans/Laws.antt =====
-- When the overlay builders of plugin.ts build a plan's instruction, and with which accounts.
use multi_delegator.Base.{
  ℕ, ◌-◌, ◌^◌, ◌≤◌, ◌<◌, String, ◌≡◌, refl, sym, ◌∙◌, ◌↔◌, List, ◌++◌, arith, length,
}
use multi_delegator.Base.Int.{pos, pos_part, neg_part, ◌<ℤ◌}
use multi_delegator.Base.Result.{ok, >>=-eq-ok, >>-eq-ok, ok_inj}
use multi_delegator.Client.Types.{Quantity, bigint, whole, fractional, Signer, Instruction}
use multi_delegator.Client.Inputs.{CreatePlanInput, UpdatePlanInput, SubscribeInput}
use multi_delegator.Client.Validators.{
  assert_positive, assert_safe_u64, assert_metadata_uri, assert_max_len, pad_plan_destinations,
  pad_plan_pullers,
}
use multi_delegator.Client.Validators.Laws.{zeros, pad_addresses-fitting, filled_up}
use multi_delegator.Client.Generated.{
  GeneratedClient, create_plan_call, EventAccounts, update_plan_call, subscribe_call,
}
use multi_delegator.Client.Plans.{
  check_create_plan, create_plan_overlay, PlanSnapshot, plan_snapshot, TermsSnapshot,
  terms_snapshot, update_plan_overlay, subscribe_overlay,
}
use multi_delegator.Client.Overlay.{pda_config, event_accounts}
use multi_delegator.Client.Overlay.Laws.{accounts_of, payer_metas, built_for_payer}

-- a whole amount above zero
abbrev pub IsPositive : Quantity → Type 0
IsPositive (bigint z) = pos 0 <ℤ z
IsPositive (whole z) = pos 0 <ℤ z
IsPositive fractional = ⊥

-- a bigint, or a whole number that a double holds exactly
abbrev pub IsSafeU64 : Quantity → Type 0
IsSafeU64 (bigint z) = Unit {0}
IsSafeU64 (whole z) = (pos_part z < 2 ^ 53) × (neg_part z < 2 ^ 53)
IsSafeU64 fractional = ⊥

pub record IsPlanInput (kit : GeneratedClient) (input : CreatePlanInput Signer) : Type 0 where
  pub amount : IsPositive input.amount
  pub period : IsPositive input.period_hours
  pub plan_id : IsSafeU64 input.plan_id
  pub metadata : kit.utf8_length input.metadata_uri ≤ 128
  pub destinations : length input.destinations ≤ 4
  pub pullers : length input.pullers ≤ 4

assert_positive_passes :
    (q : Quantity) (name : String) → IsPositive q → assert_positive q name ≡ ok tt
unfolding assert_positive
assert_positive_passes (bigint z) name h = ground arith
assert_positive_passes (whole z) name h = ground arith
assert_positive_passes fractional name h = elim h [ ]

pub assert_positive-ok :
    (q : Quantity) (name : String) (u : Unit {0}) → assert_positive q name ≡ ok u → IsPositive q
unfolding assert_positive
assert_positive-ok (bigint z) name u h = ground arith
assert_positive-ok (whole z) name u h = ground arith
assert_positive-ok fractional name u h = cc

assert_safe_u64_passes :
    (q : Quantity) (name : String) → IsSafeU64 q → assert_safe_u64 q name ≡ ok tt
unfolding assert_safe_u64
assert_safe_u64_passes (bigint z) name h = refl
assert_safe_u64_passes (whole z) name h = ground arith
assert_safe_u64_passes fractional name h = elim h [ ]

assert_safe_u64-ok :
    (q : Quantity) (name : String) (u : Unit {0}) → assert_safe_u64 q name ≡ ok u → IsSafeU64 q
unfolding assert_safe_u64
assert_safe_u64-ok (bigint z) name u h = tt
assert_safe_u64-ok (whole z) name u h = ground arith
assert_safe_u64-ok fractional name u h = cc

pub assert_metadata_uri_iff :
    (f : String → ℕ) (uri : String) → (assert_metadata_uri f uri ≡ ok tt) ↔ (f uri ≤ 128)
unfolding assert_metadata_uri
assert_metadata_uri_iff f uri = ground arith

pad_plan_destinations-fitting :
    (xs : List String) → length xs ≤ 4 → pad_plan_destinations xs ≡ ok (xs ++ zeros (4 - length xs))
unfolding pad_plan_destinations assert_max_len
pad_plan_destinations-fitting xs h = ground (arith, pad_addresses-fitting xs 4 h)

pad_plan_destinations-ok : (xs ys : List String) → pad_plan_destinations xs ≡ ok ys → length xs ≤ 4
unfolding pad_plan_destinations assert_max_len
pad_plan_destinations-ok xs ys h = ground arith

pub pad_plan_pullers-fitting :
    (xs : List String) → length xs ≤ 4 → pad_plan_pullers xs ≡ ok (xs ++ zeros (4 - length xs))
unfolding pad_plan_pullers assert_max_len
pad_plan_pullers-fitting xs h = ground (arith, pad_addresses-fitting xs 4 h)

pub pad_plan_pullers-ok : (xs ys : List String) → pad_plan_pullers xs ≡ ok ys → length xs ≤ 4
unfolding pad_plan_pullers assert_max_len
pad_plan_pullers-ok xs ys h = ground arith

module _ (kit : GeneratedClient) (input : CreatePlanInput Signer) where
  -- An input passes the checks of `createPlan` if the amount and the period are positive, the plan id
  -- is exact, the metadata URI has at most 128 bytes and there are at most four destinations and
  -- four pullers; both arrays are then filled up to four with the zero address.
  pub check_create_plan-IsPlanInput :
      IsPlanInput kit input
      → check_create_plan kit input
        ≡ ok (
          input.destinations ++ zeros (4 - length input.destinations),
          input.pullers ++ zeros (4 - length input.pullers),
        )
  unfolding check_create_plan
  check_create_plan-IsPlanInput h = rw (
    assert_positive_passes input.amount "amount" h.amount,
    assert_positive_passes input.period_hours "periodHours" h.period,
    assert_safe_u64_passes input.plan_id "planId" h.plan_id,
    (assert_metadata_uri_iff kit.utf8_length input.metadata_uri).1 h.metadata,
    pad_plan_destinations-fitting input.destinations h.destinations,
    pad_plan_pullers-fitting input.pullers h.pullers,
  )

  checked :
      (r : List String × List String) → check_create_plan kit input ≡ ok r → IsPlanInput kit input
  unfolding check_create_plan
  checked r e =
      let (a, e1) = >>-eq-ok _ _ e in
      let (p, e2) = >>-eq-ok _ _ e1 in
      let (i, e3) = >>-eq-ok _ _ e2 in
      let (m, e4) = >>-eq-ok _ _ e3 in
      let (ds, d, e5) = >>=-eq-ok _ _ e4 in
      let (ps, q, e6) = >>=-eq-ok _ _ e5 in
      record {
        amount = assert_positive-ok input.amount "amount" tt a;
        period = assert_positive-ok input.period_hours "periodHours" tt p;
        plan_id = assert_safe_u64-ok input.plan_id "planId" tt i;
        metadata = (assert_metadata_uri_iff kit.utf8_length input.metadata_uri).0 m;
        destinations = pad_plan_destinations-ok input.destinations ds d;
        pullers = pad_plan_pullers-ok input.pullers ps q;
      }

  -- Where an overlay call of `createPlan` returns an instruction, its input passed the checks, the
  -- generated builder was called with what the input says, both address arrays filled up to four
  -- entries, and the accounts are those the builder returned with the sponsoring payer behind them.
  pub create_plan_overlay_ok :
      {ix : Instruction}
      → create_plan_overlay kit input ≡ ok ix
      → IsPlanInput kit input
        × ((found : String × ℕ) × (base : Instruction) × (kit.find_plan_pda input.owner.address
                input.plan_id
                (pda_config input.program_address)
              ≡ ok found)
            × (kit.get_instruction
                  (create_plan_call input.owner
                    (record {
                      destinations = input.destinations ++ zeros (4 - length input.destinations);
                      end_ts = input.end_ts;
                      metadata_uri = input.metadata_uri;
                      mint = input.mint;
                      plan_id = input.plan_id;
                      pullers = input.pullers ++ zeros (4 - length input.pullers);
                      terms = record {
                        amount = input.amount;
                        created_at = bigint (pos 0);
                        period_hours = input.period_hours;
                      };
                    })
                    found.0
                    input.mint
                    input.token_program)
                  (pda_config input.program_address)
                ≡ ok base)
            × (accounts_of ix ≡ accounts_of base ++ payer_metas input.payer))
  unfolding create_plan_overlay
  create_plan_overlay_ok {ix} e =
      let (r, c, _) = >>=-eq-ok _ _ e in
      let valid = checked r c in
      let e' = rw (check_create_plan-IsPlanInput valid) at e in
      let (found, f, e2) = >>=-eq-ok _ _ e' in
      let (base, b, a) = built_for_payer _ input.payer ix e2 in (valid, (found, base, f, b, a))

module _ (kit : GeneratedClient) where
  pub subscribe_overlay_ok :
      (input : SubscribeInput Signer) {ix : Instruction}
      → subscribe_overlay kit input ≡ ok ix
      → (expected : TermsSnapshot) × (found : String × ℕ) × (events : EventAccounts)
        × (authority : String) × (base : Instruction) × (terms_snapshot input.expected_amount
              input.expected_created_at input.expected_period_hours
              input.expected_subscription_authority_init_id
            ≡ ok expected)
        × (kit.find_plan_pda input.merchant input.plan_id (pda_config input.program_address)
            ≡ ok found)
        × (kit.get_instruction
              (subscribe_call events input.merchant found.0
                (record {
                  expected_amount = expected.amount;
                  expected_created_at = expected.created_at;
                  expected_mint = input.token_mint;
                  expected_period_hours = expected.period_hours;
                  expected_subscription_authority_init_id = expected.init_id;
                  plan_bump = found.1;
                  plan_id = input.plan_id;
                })
                input.subscriber
                authority)
              (pda_config input.program_address)
            ≡ ok base)
        × (accounts_of ix ≡ accounts_of base ++ payer_metas input.payer)
  unfolding subscribe_overlay
  subscribe_overlay_ok input {ix} e =
      let (expected, t, e1) = >>=-eq-ok _ _ e in
      let (_, e2) = >>-eq-ok _ _ e1 in
      let (found, f, e3) = >>=-eq-ok _ _ e2 in
      let (authority, _, e4) =
        >>=-eq-ok
          (kit.find_subscription_authority_pda input.token_mint input.subscriber.address
            (pda_config input.program_address))
          _ e3 in
      let (events, _, e5) = >>=-eq-ok (event_accounts kit input.program_address) _ e4 in
      let (base, b, a) = built_for_payer _ input.payer ix e5 in
      (expected, found, events, authority, base, t, f, b, a)

  padded_pullers :
      (xs ys : List String) → pad_plan_pullers xs ≡ ok ys → (length xs ≤ 4) × (ys ≡ filled_up xs)
  padded_pullers xs ys h =
      let n = pad_plan_pullers-ok xs ys h in (n, ok_inj (sym h ∙ pad_plan_pullers-fitting xs n))

  update_built :
      (input : UpdatePlanInput Signer) {ix : Instruction}
      → update_plan_overlay kit input ≡ ok ix
      → (expected : PlanSnapshot) × (pullers : List String) × (expected_pullers : List String)
        × (events : EventAccounts) × (plan_snapshot input.expected_created_at input.expected_end_ts
              input.expected_metadata_uri input.expected_pullers
            ≡ ok expected)
        × (kit.utf8_length input.metadata_uri ≤ 128)
        × (pad_plan_pullers input.pullers ≡ ok pullers)
        × (pad_plan_pullers expected.pullers ≡ ok expected_pullers)
        × (kit.get_instruction
              (update_plan_call events input.owner input.plan_pda (record {
                end_ts = input.end_ts;
                expected_created_at = expected.created_at;
                expected_end_ts = expected.end_ts;
                expected_metadata_uri = expected.metadata_uri;
                expected_pullers = expected_pullers;
                metadata_uri = input.metadata_uri;
                pullers = pullers;
                status = input.status;
              }))
              (pda_config input.program_address)
            ≡ ok ix)
  unfolding update_plan_overlay
  update_built input {ix} e =
      let (expected, t, e1) = >>=-eq-ok _ _ e in
      let (m, e2) = >>-eq-ok _ _ e1 in
      let (ps, q, e3) = >>=-eq-ok _ _ e2 in
      let (qs, q', e4) = >>=-eq-ok _ _ e3 in
      let (events, _, b) = >>=-eq-ok (event_accounts kit input.program_address) _ e4 in
      (
        expected,
        ps,
        qs,
        events,
        t,
        (assert_metadata_uri_iff kit.utf8_length input.metadata_uri).0 m,
        q,
        q',
        b,
      )

  pub update_plan_overlay_ok :
      (input : UpdatePlanInput Signer) (expected : PlanSnapshot) {ix : Instruction}
      → plan_snapshot input.expected_created_at input.expected_end_ts input.expected_metadata_uri
          input.expected_pullers
        ≡ ok expected
      → update_plan_overlay kit input ≡ ok ix
      → (length input.pullers ≤ 4)
        × (length expected.pullers ≤ 4)
        × (kit.utf8_length input.metadata_uri ≤ 128)
        × ((events : EventAccounts) × (kit.get_instruction
                (update_plan_call events input.owner input.plan_pda (record {
                  end_ts = input.end_ts;
                  expected_created_at = expected.created_at;
                  expected_end_ts = expected.end_ts;
                  expected_metadata_uri = expected.metadata_uri;
                  expected_pullers = filled_up expected.pullers;
                  metadata_uri = input.metadata_uri;
                  pullers = filled_up input.pullers;
                  status = input.status;
                }))
                (pda_config input.program_address)
              ≡ ok ix))
  update_plan_overlay_ok input expected {ix} t e =
      let (expected', ps, qs, events, t', m, q, q', b) = update_built input e in
      let same : expected' ≡ expected = ok_inj (sym t' ∙ t) in
      let (n, p) = padded_pullers input.pullers ps q in
      let (n', p') = padded_pullers expected'.pullers qs q' in
      (n, rw same at n', m, (events, rw (p, p', same) at b))
