-- ===== src/Client/Queries.antt =====
-- clients/typescript/src/plugin.ts: the plugin's `queries`, those that compute something.
pub mod Laws
use multi_delegator.Base.{ℕ, ◌+◌, String, Bool, Option, none, List, [], ◌∷◌, is_some, length}
use multi_delegator.Base.Result.{Result, ok, ◌>>=◌}
use multi_delegator.Client.Accounts.{
  AccountKit, Delegation, fixed, recurring, subscription, fetch_delegations_by_delegator,
}
use multi_delegator.Client.Generated.{GeneratedClient}
use multi_delegator.Client.Overlay.{pda_config}
use multi_delegator.Client.Plugin.{PluginClient}

pub record DelegationSummary : Type 0 where
  pub fixed : ℕ
  pub recurring : ℕ
  pub subscriptions : ℕ
  pub total : ℕ

module _ {F R S : Type 0} where
  -- the counters after the delegations left
  unfoldable pub tally : List (Delegation F R S) → ℕ → ℕ → ℕ → ℕ × ℕ × ℕ
  tally [] f r s = (f, r, s)
  tally (fixed _ _ ∷ ds) f r s = tally ds (f + 1) r s
  tally (recurring _ _ ∷ ds) f r s = tally ds f (r + 1) s
  tally (subscription _ _ ∷ ds) f r s = tally ds f r (s + 1)

  unfoldable pub summary_of : List (Delegation F R S) → DelegationSummary
  unfolding tally
  summary_of delegations =
      let (f, r, s) = tally delegations 0 0 0 in
      record { fixed = f; recurring = r; subscriptions = s; total = length delegations }

module _ {F R S P : Type 0} (kit : AccountKit F R S P) where
  unfoldable pub active_delegation_summary : String → Result DelegationSummary
  active_delegation_summary wallet = do
    delegations ← fetch_delegations_by_delegator kit wallet none
    ok (summary_of delegations)

module _ (kit : GeneratedClient) (client : PluginClient) where
  -- whether the authority account exists, and its address
  unfoldable pub is_subscription_authority_initialized :
      String → String → Option String → Result (Bool × String)
  is_subscription_authority_initialized user token_mint program_address = do
    pda ← kit.find_subscription_authority_pda token_mint user (pda_config program_address)
    account ← client.rpc.fetch_maybe_subscription_authority pda
    ok (is_some account, pda)
