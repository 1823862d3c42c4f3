-- ===== src/Client/Live/Laws.antt =====
-- What the plugin's `subscribe` and `updatePlan` expect of the live plan, whether they fetch it or not.
use multi_delegator.Base.{
  ℕ, ◌≤◌, String, ◌≡◌, refl, sym, ◌∙◌, inl, inr, Bool, true, false, ◌&&◌, Option, none, some, ◌++◌,
  Bool-cases, is_some, or_else, length,
}
use multi_delegator.Base.Result.{ok, >>=-eq-ok, >>-eq-ok, ok_inj}
use multi_delegator.Client.Types.{Quantity, Signer, Instruction}
use multi_delegator.Client.Inputs.{SubscribeInput, UpdatePlanInput}
use multi_delegator.Client.Plugin.{PluginClient, payer_of}
use multi_delegator.Client.Live.{
  filled, resolve_terms, no_subscriber_authority, resolve_init_id, subscribe, resolve_plan,
  update_plan, ExpectedTerms,
}
use multi_delegator.Client.Generated.{
  GeneratedClient, PlanData, EventAccounts, update_plan_call, subscribe_call,
}
use multi_delegator.Client.Overlay.{pda_config}
use multi_delegator.Client.Overlay.Laws.{accounts_of, payer_metas}
use multi_delegator.Client.Plans.Laws.{update_plan_overlay_ok, subscribe_overlay_ok}
use multi_delegator.Client.Validators.Laws.{filled_up}
use multi_delegator.Client.Plans.{TermsSnapshot, terms_snapshot}
use multi_delegator.Client.Validators.{assert_safe_u64}

filled-given {ℓ} :
    {A : Type ℓ} (given : Option A) (live : A) → is_some given ≡ true → given ≡ filled given live
filled-given (some a) live h = refl
filled-given none live h = cc

three_given : (a b c : Bool) → a && b && c ≡ true → (a ≡ true) × (b ≡ true) × (c ≡ true)
three_given true true true h = (refl, refl, refl)
three_given true true false h = cc
three_given true false c h = cc
three_given false b c h = cc

four_given :
    (a b c d : Bool) → a && b && c && d ≡ true → (a ≡ true) × (b ≡ true) × (c ≡ true) × (d ≡ true)
four_given true true true true h = (refl, refl, refl, refl)
four_given true true true false h = cc
four_given true true false d h = cc
four_given true false c d h = cc
four_given false b c d h = cc

module _ (kit : GeneratedClient) (client : PluginClient) where
  resolve_terms-filled :
      (input : SubscribeInput (Option Signer)) (found : String × ℕ) (plan : PlanData)
      → kit.find_plan_pda input.merchant input.plan_id (pda_config input.program_address) ≡ ok found
      → client.rpc.fetch_plan found.0 ≡ ok plan
      → resolve_terms kit client input
        ≡ ok (record {
          amount = filled input.expected_amount plan.terms.amount;
          created_at = filled input.expected_created_at plan.terms.created_at;
          period_hours = filled input.expected_period_hours plan.terms.period_hours;
        })
  unfolding resolve_terms
  resolve_terms-filled input found plan f p =
      elim (Bool-cases (
        is_some input.expected_amount
        && is_some input.expected_period_hours
        && is_some input.expected_created_at)) [
          | inl e ↦
              (let (a, h, c) =
                  three_given (is_some input.expected_amount) (is_some input.expected_period_hours)
                    (is_some input.expected_created_at) e in
                rw (
                  e,
                  sym (filled-given input.expected_amount plan.terms.amount a),
                  sym (filled-given input.expected_created_at plan.terms.created_at c),
                  sym (filled-given input.expected_period_hours plan.terms.period_hours h),
                ))
          | inr e ↦ rw (e, f, p)
        ]

  resolve_plan-filled :
      (input : UpdatePlanInput (Option Signer)) (plan : PlanData)
      → client.rpc.fetch_plan input.plan_pda ≡ ok plan
      → resolve_plan kit client input
        ≡ ok (record {
          created_at = filled input.expected_created_at plan.terms.created_at;
          end_ts = filled input.expected_end_ts plan.end_ts;
          metadata_uri = filled input.expected_metadata_uri plan.metadata_uri;
          pullers = filled input.expected_pullers plan.pullers;
        })
  unfolding resolve_plan
  resolve_plan-filled input plan p =
      elim (Bool-cases (
        is_some input.expected_created_at
        && is_some input.expected_end_ts
        && is_some input.expected_pullers
        && is_some input.expected_metadata_uri)) [
          | inl e ↦
              (let (c, t, l, m) =
                  four_given (is_some input.expected_created_at) (is_some input.expected_end_ts)
                    (is_some input.expected_pullers) (is_some input.expected_metadata_uri) e in
                rw (
                  e,
                  sym (filled-given input.expected_created_at plan.terms.created_at c),
                  sym (filled-given input.expected_end_ts plan.end_ts t),
                  sym (filled-given input.expected_metadata_uri plan.metadata_uri m),
                  sym (filled-given input.expected_pullers plan.pullers l),
                ))
          | inr e ↦ rw (e, p)
        ]

  snapshot_of_filled :
      (input : SubscribeInput (Option Signer)) (plan : PlanData) (init_id : Quantity)
      (terms : ExpectedTerms) (expected : TermsSnapshot)
      → terms ≡ record {
        amount = filled input.expected_amount plan.terms.amount;
        created_at = filled input.expected_created_at plan.terms.created_at;
        period_hours = filled input.expected_period_hours plan.terms.period_hours;
      }
      → terms_snapshot terms.amount terms.created_at terms.period_hours (some init_id) ≡ ok expected
      → expected ≡ record {
        amount = or_else input.expected_amount plan.terms.amount;
        created_at = or_else input.expected_created_at plan.terms.created_at;
        period_hours = or_else input.expected_period_hours plan.terms.period_hours;
        init_id = init_id;
      }
  snapshot_of_filled input plan init_id terms expected agreed s = sym (ok_inj (rw agreed at s))

  -- Where the plan of a subscription exists and `subscribe` returns an instruction, the generated
  -- builder was called with the terms that the input expects, and with the live plan's where it
  -- expects none; with the init id it expects, or else the live authority's; and with the bump of the
  -- plan's address. The signer is the input's or else the client's identity, and the accounts are the
  -- builder's with the sponsoring payer behind them.
  pub subscribe_ok :
      (input : SubscribeInput (Option Signer)) (found : String × ℕ) (plan : PlanData)
      {ix : Instruction}
      → kit.find_plan_pda input.merchant input.plan_id (pda_config input.program_address) ≡ ok found
      → client.rpc.fetch_plan found.0 ≡ ok plan
      → subscribe kit client input ≡ ok ix
      → (init_id : Quantity) × (events : EventAccounts) × (authority : String)
        × (base : Instruction) × (resolve_init_id kit client input.token_mint
              (or_else input.subscriber client.identity).address
              input.program_address
              input.expected_subscription_authority_init_id
              no_subscriber_authority
            ≡ ok init_id)
        × (kit.get_instruction
              (subscribe_call events input.merchant found.0
                (record {
                  expected_amount = or_else input.expected_amount plan.terms.amount;
                  expected_created_at = or_else input.expected_created_at plan.terms.created_at;
                  expected_mint = input.token_mint;
                  expected_period_hours =
                      or_else input.expected_period_hours plan.terms.period_hours;
                  expected_subscription_authority_init_id = init_id;
                  plan_bump = found.1;
                  plan_id = input.plan_id;
                })
                (or_else input.subscriber client.identity)
                authority)
              (pda_config input.program_address)
            ≡ ok base)
        × (accounts_of ix ≡ accounts_of base ++ payer_metas (payer_of kit client input.payer))
  unfolding subscribe
  subscribe_ok input found plan {ix} f p e =
      let (_, e1) = >>-eq-ok (assert_safe_u64 input.plan_id "planId") _ e in
      let (terms, t, e2) = >>=-eq-ok (resolve_terms kit client input) _ e1 in
      let (init_id, r, e3) = >>=-eq-ok _ _ e2 in
      let (expected, found', events, authority, base, s, f', b, a) =
        subscribe_overlay_ok kit _ e3 in
      let there : found' ≡ found = ok_inj (sym f' ∙ f) in
      let agreed = ok_inj (sym t ∙ resolve_terms-filled input found plan f p) in
      let known = snapshot_of_filled input plan init_id terms expected agreed s in
      (init_id, events, authority, base, r, rw (known, there) at b, a)

  -- Where the plan exists and `updatePlan` returns an instruction, the generated builder returned it
  -- from the state that the input expects, and from the live plan's where it expects none, the new and
  -- the expected pullers filled up to four entries.
  pub update_plan_ok :
      (input : UpdatePlanInput (Option Signer)) (plan : PlanData) {ix : Instruction}
      → client.rpc.fetch_plan input.plan_pda ≡ ok plan
      → update_plan kit client input ≡ ok ix
      → (length input.pullers ≤ 4)
        × (length (or_else input.expected_pullers plan.pullers) ≤ 4)
        × (kit.utf8_length input.metadata_uri ≤ 128)
        × ((events : EventAccounts) × (kit.get_instruction
                (update_plan_call events
                  (or_else input.owner client.identity)
                  input.plan_pda
                  (record {
                    end_ts = input.end_ts;
                    expected_created_at = or_else input.expected_created_at plan.terms.created_at;
                    expected_end_ts = or_else input.expected_end_ts plan.end_ts;
                    expected_metadata_uri = or_else input.expected_metadata_uri plan.metadata_uri;
                    expected_pullers = filled_up (or_else input.expected_pullers plan.pullers);
                    metadata_uri = input.metadata_uri;
                    pullers = filled_up input.pullers;
                    status = input.status;
                  }))
                (pda_config input.program_address)
              ≡ ok ix))
  unfolding update_plan
  update_plan_ok input plan {ix} p e =
      let (expected, t, e1) = >>=-eq-ok _ _ e in
      let same = ok_inj (sym t ∙ resolve_plan-filled input plan p) in
      update_plan_overlay_ok kit _ _ refl (rw same at e1)
