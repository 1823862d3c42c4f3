-- ===== src/Collect/Account.antt =====
-- webapp/src/lib/collect-utils.ts, reading a token account of a JSON-RPC answer.
use multi_delegator.Base.{String, not, Option, none, some, [], ◌∷◌, if◌then◌else◌, or_else}
use multi_delegator.Base.Int.{ℤ, pos}
use multi_delegator.Js.Value.{Value, is_record, field, string?}
use multi_delegator.Js.Decimal.{big_int, codes, to_string, template}
use multi_delegator.Collect.Types.{ParsedTokenAccount}

-- `stringField(record, key)`
unfoldable pub string_field : Value → String → Option String
string_field record' key = string? (field record' key)

abbrev amount_of : Option String → Option ℤ
amount_of none = none
amount_of (some text) = big_int (codes text)

-- `amountField(record, key)`
unfoldable pub amount_field : Value → String → Option ℤ
amount_field record' key =
    let f = field record' key in
    if is_record f then amount_of (string? (field f "amount")) else none

-- the object that is built once mint, owner and balance are there
abbrev account_of : Value → Option String → Option String → Option ℤ → Option ParsedTokenAccount
account_of info (some mint) (some owner) (some balance) = some (record {
  mint = mint;
  owner = owner;
  balance = balance;
  delegate = string_field info "delegate";
  delegated_amount = or_else (amount_field info "delegatedAmount") (pos 0);
})
account_of info _ _ _ = none

-- `parseTokenAccount(value)`
unfoldable pub parse_token_account : Value → Option ParsedTokenAccount
unfolding string_field amount_field
parse_token_account value =
    if not (is_record value)
    then none
    else (let contents = field value "data" in
        if not (is_record contents)
        then none
        else (let parsed = field contents "parsed" in
            if not (is_record parsed)
            then none
            else (let info = field parsed "info" in
                if not (is_record info)
                then none
                else account_of info (string_field info "mint") (string_field info "owner")
                    (amount_field info "tokenAmount"))))

-- `tokenStateHash(account, amount)`
unfoldable pub token_state_hash : ParsedTokenAccount → ℤ → String
token_state_hash account amount = template (
    account.mint
    ∷ ":"
    ∷ account.owner
    ∷ ":"
    ∷ to_string account.balance
    ∷ ":"
    ∷ or_else account.delegate ""
    ∷ ":"
    ∷ to_string account.delegated_amount
    ∷ ":"
    ∷ to_string amount
    ∷ [])
