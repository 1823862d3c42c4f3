-- ===== src/Packer.antt =====
-- Packing instructions into transactions: webapp/src/lib/tx-packer.ts. An instruction is a value of
-- any type `I`; `wire` stands for the kit's pipeline up to `getBase64EncodedWireTransaction`, with
-- the fee payer fixed: the base64 text of the compiled transaction, or `none` where it throws.
pub mod Laws
use multi_delegator.Base.{
  ℕ, zero, suc, ◌+◌, ◌-◌, ◌*◌, ◌/◌, max, Bool, true, false, ◌&&◌, ◌||◌, Option, none, some, List,
  [], ◌∷◌, ◌++◌, map, ltb, ◌==◌, if◌then◌else◌, length, take, drop,
}
use multi_delegator.Js.Decimal.{codes}

abbrev pub max_tx_bytes : ℕ
max_tx_bytes = 1232

abbrev is_empty : List ℕ → Bool
is_empty [] = true
is_empty (c ∷ cs) = false

abbrev same_codes : List ℕ → List ℕ → Bool
same_codes [] [] = true
same_codes (c ∷ cs) (d ∷ ds) = c == d && same_codes cs ds
same_codes _ _ = false

ends_with : List ℕ → List ℕ → Bool
ends_with suffix [] = is_empty suffix
ends_with suffix (c ∷ cs) = same_codes suffix (c ∷ cs) || ends_with suffix cs

-- `(b64.length * 3) / 4 - padding`; the length of a padded base64 text is a multiple of four
unfoldable pub base64_byte_length : List ℕ → ℕ
unfolding ends_with
base64_byte_length b64 =
    let padding =
      if ends_with (codes "==") b64 then 2 else if ends_with (codes "=") b64 then 1 else 0 in
    length b64 * 3 / 4 - padding

pub record InstructionBatch (I T : Type 0) : Type 0 where
  pub instructions : List I
  pub items : List T

module _ {I : Type 0} (wire : List I → Option (List ℕ)) where
  abbrev size_of_wire : Option (List ℕ) → ℕ
  size_of_wire none = max_tx_bytes + 1
  size_of_wire (some b64) = base64_byte_length b64

  unfoldable pub tx_byte_size : List I → ℕ
  tx_byte_size instructions = size_of_wire (wire instructions)

  module _ {T : Type 0} (instruction : T → I) where
    -- the `for` loop: how many further items fit behind those that are taken
    unfoldable pub fitting : List I → List T → ℕ → ℕ
    fitting taken [] count = count
    fitting taken (item ∷ items) count =
        let candidate = taken ++ instruction item ∷ [] in
        let more = fitting candidate items (count + 1) in
        if ltb max_tx_bytes (tx_byte_size candidate) then count else more

    -- the `while` loop over the items from `cursor` on; each round takes one item or more
    unfoldable pub pack_loop : ℕ → List I → List T → List (InstructionBatch I T)
    pack_loop zero prefix items = []
    pack_loop (suc fuel) prefix [] = []
    pack_loop (suc fuel) prefix (item ∷ items) =
        let count = max (fitting prefix (item ∷ items) 0) 1 in
        let batch_items = take count (item ∷ items) in
        record { instructions = prefix ++ map instruction batch_items; items = batch_items }
        ∷ pack_loop fuel [] (drop count (item ∷ items))

    unfoldable pub pack_instruction_batches_with_items :
        List T → List I → List (InstructionBatch I T)
    unfolding pack_loop
    pack_instruction_batches_with_items [] [] = []
    pack_instruction_batches_with_items [] (ix ∷ prefix_ixs) =
        record { instructions = ix ∷ prefix_ixs; items = [] } ∷ []
    pack_instruction_batches_with_items (item ∷ items) prefix_ixs =
        pack_loop (length (item ∷ items)) prefix_ixs (item ∷ items)

  unfoldable pub pack_instruction_batches : List I → List I → List (List I)
  unfolding pack_instruction_batches_with_items
  pack_instruction_batches ixs prefix_ixs =
      map (λ batch. batch.instructions)
        (pack_instruction_batches_with_items {T = I} (λ ix. ix) ixs prefix_ixs)
