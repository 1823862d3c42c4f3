-- ===== src/Client/Plugin/Laws.antt =====
-- The accounts that the plugin's instructions add behind those of the generated builders.
use multi_delegator.Base.{String, ◌≡◌, refl, ap, ◌∙◌, Option, none, some, [], ◌∷◌, ◌++◌, or_else}
use multi_delegator.Base.Result.{ok}
use multi_delegator.Client.Types.{Instruction, Signer, readonly, when_given, writable}
use multi_delegator.Client.Inputs.{RevokeSubscriptionInput}
use multi_delegator.Client.Generated.{GeneratedClient, revoke_delegation_call}
use multi_delegator.Client.Delegations.{revoke_subscription_overlay}
use multi_delegator.Client.Plugin.{PluginClient, revoke_subscription}
use multi_delegator.Client.Overlay.Laws.{receiver_metas, accounts_of, built_with_trailing}
use multi_delegator.Client.Overlay.{pda_config, plain_meta}

trailing_of :
    (plan_pda : String) (receiver : Option String)
    → (elim receiver [
      | none ↦ plain_meta plan_pda readonly ∷ []
      | some address ↦ plain_meta plan_pda readonly ∷ plain_meta address writable ∷ []
    ])
      ≡ plain_meta plan_pda readonly ∷ receiver_metas receiver
trailing_of plan_pda none = refl
trailing_of plan_pda (some address) = refl

module _ (kit : GeneratedClient) (client : PluginClient) where
  -- Where the revocation of a subscription returns an instruction, the generated builder was called
  -- with the subscription and with the input's authority or else the client's identity, and behind
  -- the accounts it returned stand the plan, read only, and then the rent receiver, if one is given.
  pub revoke_subscription_ok :
      (input : RevokeSubscriptionInput (Option Signer)) {ix : Instruction}
      → revoke_subscription kit client input ≡ ok ix
      → (base : Instruction) × (kit.get_instruction
            (revoke_delegation_call
              (or_else input.authority client.identity)
              input.subscription_pda)
            (pda_config input.program_address)
          ≡ ok base)
        × (accounts_of ix
            ≡ accounts_of base
              ++ (plain_meta input.plan_pda readonly ∷ receiver_metas (when_given input.receiver)))
  unfolding revoke_subscription revoke_subscription_overlay
  revoke_subscription_ok input {ix} e =
      let (base, b, t) = built_with_trailing _ _ ix e in
      (
        base,
        b,
        t
            ∙ ap (λ r. accounts_of base ++ r)
                (trailing_of input.plan_pda (when_given input.receiver)),
      )
