-- ===== src/Mutations/Laws.antt =====
-- webapp/src/hooks/use-subscriptions-mutations.ts and webapp/src/lib/token-program.ts: the mutation
-- that cancels and revokes against its two halves, and the cache of token programs.
use multi_delegator.Base.{
  String, ◌≡◌, refl, sym, ap, ◌∙◌, Option, none, some, List, [], ◌∷◌, eq_refl,
}
use multi_delegator.Base.Result.{Result, ok, throw, >>=-eq-ok, ok_inj}
use multi_delegator.Mutations.{
  not_configured, Services, HookState, connected, configured, receiver_for, with_cached,
  program_or_fetch, resolve_token_program,
}
use multi_delegator.Client.Delegations.{required, revoke_subscription_overlay}
use multi_delegator.Client.Plans.{cancel_subscription_overlay}
use multi_delegator.Js.Decimal.{template}
use multi_delegator.Base.Dict.{Dict, get}
use multi_delegator.Client.Types.{Instruction, when_given}
use multi_delegator.Mutations.Delegations.Laws.{>>=-ok}
use multi_delegator.Mutations.Plans.{
  cancel_instructions, revoke_instructions, cancel_and_revoke_instructions,
}
use multi_delegator.Base.Dict.{get-put}

required-eq-ok :
    {A : Type 0} (o : Option A) (message : String) {a : A} → required o message ≡ ok a → o ≡ some a
required-eq-ok none message h = cc
required-eq-ok (some a) message h = ap some (ok_inj h)

module _ (services : Services) (state : HookState) where
  open services use {kit, check_address}

  -- Where cancelling and revoking in one transaction has instructions to send, they are the one that
  -- cancelling alone would send and, behind it, the one that revoking alone would send.
  pub cancel_and_revoke_ok :
      (subscription_pda plan_pda payer : String) (ixs : List Instruction)
      → cancel_and_revoke_instructions services state subscription_pda plan_pda payer ≡ ok ixs
      → (cancel revoke : Instruction) × (cancel_instructions services state plan_pda
            subscription_pda
          ≡ ok (cancel ∷ []))
        × (revoke_instructions services state subscription_pda plan_pda payer ≡ ok (revoke ∷ []))
        × (ixs ≡ cancel ∷ revoke ∷ [])
  unfolding cancel_and_revoke_instructions cancel_instructions revoke_instructions configured
  cancel_and_revoke_ok subscription_pda plan_pda payer ixs built =
      let (signer, has_signer, r1) = >>=-eq-ok (connected state) _ built in
      let (program, has_program, r2) = >>=-eq-ok (configured state) _ r1 in
      let (receiver, has_receiver, r3) =
        >>=-eq-ok (receiver_for check_address payer signer.address) _ r2 in
      let (plan, has_plan, r4) = >>=-eq-ok (check_address plan_pda) _ r3 in
      let (subscription, has_subscription, r5) = >>=-eq-ok (check_address subscription_pda) _ r4 in
      let (cancel, has_cancel, r6) = >>=-eq-ok (cancel_subscription_overlay kit _) _ r5 in
      let (plan', has_plan', r7) = >>=-eq-ok (check_address plan_pda) _ r6 in
      let (subscription', has_subscription', r8) =
        >>=-eq-ok (check_address subscription_pda) _ r7 in
      let (revoke, has_revoke, r9) = >>=-eq-ok (revoke_subscription_overlay kit _) _ r8 in
      let same_revoke =
        ap
          (λ p. revoke_subscription_overlay kit (record {
            program_address = p;
            authority = signer;
            plan_pda = plan';
            receiver = receiver;
            subscription_pda = subscription';
          }))
          (required-eq-ok (when_given state.prog_id) not_configured has_program) in
      (
        cancel,
        revoke,
        >>=-ok _ _ has_signer (
            >>=-ok _ _ has_program
              (>>=-ok _ _ has_plan (>>=-ok _ _ has_subscription (>>=-ok _ _ has_cancel refl)))),
        >>=-ok _ _ has_signer (
            >>=-ok _ _ has_receiver (
              >>=-ok _ _ has_plan'
                (>>=-ok _ _ has_subscription' (>>=-ok _ _ (same_revoke ∙ has_revoke) refl)))),
        sym (ok_inj r9),
      )

get-with_cached :
    (services : Services) (key mint : String) (cache after : Dict String) (found : Result String)
    {owner : String}
    → with_cached services key mint cache found ≡ (ok owner, after)
    → get after key ≡ some owner
get-with_cached services key mint cache after (throw message) h = let both = ap (λ p. p.0) h in cc
get-with_cached services key mint cache after (ok value) h =
    let value_same = ap some (ok_inj (ap (λ p. p.0) h)) in
    ap (λ p. get p.1 key) (sym h) ∙ get-put cache key key value ∙ rw (eq_refl key) value_same

get-program_or_fetch :
    (services : Services) (key mint : String) (cache after : Dict String) (found : Option String)
    {owner : String}
    → when_given (some owner) ≡ some owner
    → when_given (get cache key) ≡ found
    → program_or_fetch services key mint cache found ≡ (ok owner, after)
    → when_given (get after key) ≡ some owner
get-program_or_fetch services key mint cache after none given held h =
    ap when_given (get-with_cached services key mint cache after _ h) ∙ given
get-program_or_fetch services key mint cache after (some value) given held h =
    ap (λ p. when_given (get p.1 key)) (sym h) ∙ held ∙ ap some (ok_inj (ap (λ p. p.0) h))

-- Once the token program of a mint has been found, it is found again in the cache left behind,
-- which stays as it is: whatever the RPC answers later, it is not asked. The owner is not the empty
-- text.
pub resolve_token_program_cached :
    (services later : Services) (rpc_url mint owner : String) (cache after : Dict String)
    → when_given (some owner) ≡ some owner
    → resolve_token_program services rpc_url mint cache ≡ (ok owner, after)
    → resolve_token_program later rpc_url mint after ≡ (ok owner, after)
unfolding resolve_token_program
resolve_token_program_cached services later rpc_url mint owner cache after given h =
    let key = template (rpc_url ∷ ":" ∷ mint ∷ []) in
    let held =
      get-program_or_fetch services key mint cache after (when_given (get cache key)) given refl
        h in
    ap (program_or_fetch later key mint after) held
