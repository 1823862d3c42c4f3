-- ===== src/Client/Overlay/Laws.antt =====
-- The trailing accounts of an instruction of plugin.ts.
use multi_delegator.Base.{
  String, ◌≡◌, refl, sym, ap, ◌∙◌, Option, none, some, List, [], ◌∷◌, ◌++◌, append-nil,
  append_assoc, or_else,
}
use multi_delegator.Base.Result.{Result, ok, ◌>>=◌, >>=-eq-ok, ok_inj}
use multi_delegator.Client.Overlay.{with_trailing, payer_meta, append_payer, plain_meta}
use multi_delegator.Client.Types.{Instruction, AccountMeta, Signer, writable}

-- an instruction's accounts, where none are the empty list
abbrev pub accounts_of : Instruction → List AccountMeta
accounts_of instruction = or_else instruction.accounts []

pub accounts_of-with_trailing :
    (ix : Instruction) (metas : List AccountMeta)
    → accounts_of (with_trailing ix metas) ≡ accounts_of ix ++ metas
unfolding with_trailing
accounts_of-with_trailing ix [] = sym (append-nil (accounts_of ix))
accounts_of-with_trailing ix (m ∷ ms) = refl

-- Trailing accounts added in two steps are those added at once.
pub with_trailing-with_trailing :
    (ix : Instruction) (ms ns : List AccountMeta)
    → with_trailing (with_trailing ix ms) ns ≡ with_trailing ix (ms ++ ns)
unfolding with_trailing
with_trailing-with_trailing ix [] ns = refl
with_trailing-with_trailing ix (m ∷ ms) [] = unfold with_trailing in rw (append-nil ms)
with_trailing-with_trailing ix (m ∷ ms) (n ∷ ns) =
    ap (λ r. record ix { accounts = some r }) (append_assoc (accounts_of ix) (m ∷ ms) (n ∷ ns))

-- the account that a sponsoring payer adds
abbrev pub payer_metas : Option Signer → List AccountMeta
payer_metas none = []
payer_metas (some payer) = payer_meta payer ∷ []

pub accounts_of-append_payer :
    (ix : Instruction) (payer : Option Signer)
    → accounts_of (append_payer ix payer) ≡ accounts_of ix ++ payer_metas payer
unfolding append_payer
accounts_of-append_payer ix none = sym (append-nil (accounts_of ix))
accounts_of-append_payer ix (some payer) = accounts_of-with_trailing ix (payer_meta payer ∷ [])

-- the account that a rent receiver adds, where it is no empty text
abbrev pub receiver_metas : Option String → List AccountMeta
receiver_metas none = []
receiver_metas (some receiver) = plain_meta receiver writable ∷ []

-- A builder's instruction and its payer, from the instruction returned.
pub built_for_payer :
    (built : Result Instruction) (payer : Option Signer) (ix : Instruction)
    → (built >>= λ base. ok (append_payer base payer)) ≡ ok ix
    → (base : Instruction) × (built ≡ ok base)
      × (accounts_of ix ≡ accounts_of base ++ payer_metas payer)
built_for_payer built payer ix e =
    let (base, b, r) = >>=-eq-ok built (λ base. ok (append_payer base payer)) e in
    (base, b, ap accounts_of (sym (ok_inj r)) ∙ accounts_of-append_payer base payer)

-- A builder's instruction and the accounts added behind it, from the instruction returned.
pub built_with_trailing :
    (built : Result Instruction) (metas : List AccountMeta) (ix : Instruction)
    → (built >>= λ base. ok (with_trailing base metas)) ≡ ok ix
    → (base : Instruction) × (built ≡ ok base) × (accounts_of ix ≡ accounts_of base ++ metas)
built_with_trailing built metas ix e =
    let (base, b, r) = >>=-eq-ok built (λ base. ok (with_trailing base metas)) e in
    (base, b, ap accounts_of (sym (ok_inj r)) ∙ accounts_of-with_trailing base metas)
