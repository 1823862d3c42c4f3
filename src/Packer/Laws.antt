-- ===== src/Packer/Laws.antt =====
-- Packing keeps every instruction in order, within the size limit, and packs greedily.
use multi_delegator.Base.{
  ℕ, zero, suc, ◌+◌, ◌≤◌, ◌<◌, max, ◌≡◌, refl, sym, ◌⊎◌, inl, inr, Option, List, [], ◌∷◌, ◌++◌, map,
  append-nil, append_assoc, map-append, arith, ltb, Bool-cases, length, take, drop, concat,
  take-append-drop, length-drop,
}
use mathlib.Core.Path.{subst}
use multi_delegator.Packer.{
  max_tx_bytes, tx_byte_size, fitting, InstructionBatch, pack_loop,
  pack_instruction_batches_with_items,
}

module _ {I : Type 0} (wire : List I → Option (List ℕ)) {T : Type 0} (instruction : T → I) where
  abbrev Fits : List I → Type 0
  Fits ixs = tx_byte_size wire ixs ≤ max_tx_bytes

  abbrev IsTooLarge : List I → Type 0
  IsTooLarge ixs = max_tx_bytes < tx_byte_size wire ixs

  -- The first `k` items fit together behind those taken, and the next one does not.
  record IsFitting (taken : List I) (items : List T) (k : ℕ) : Type 0 where
    bounded : k ≤ length items
    fitted : (k ≡ 0) ⊎ Fits (taken ++ map instruction (take k items))
    full :
        (next : T) (rest : List T)
        → drop k items ≡ next ∷ rest
        → IsTooLarge ((taken ++ map instruction (take k items)) ++ instruction next ∷ [])

  IsFitting-skip :
      (taken : List I) (item : T) (items : List T)
      → IsTooLarge (taken ++ instruction item ∷ [])
      → IsFitting taken (item ∷ items) 0
  IsFitting-skip taken item items h = record {
    bounded = omega arith;
    fitted = inl refl;
    full =
        λ next rest e. rw append-nil (subst (λ t. IsTooLarge (taken ++ instruction t ∷ [])) (cc) h);
  }

  IsFitting-take :
      (taken : List I) (item : T) (items : List T) (k : ℕ)
      → Fits (taken ++ instruction item ∷ [])
      → IsFitting (taken ++ instruction item ∷ []) items k
      → IsFitting taken (item ∷ items) (suc k)
  IsFitting-take taken item items k h f = record {
    bounded = omega (arith, f.bounded);
    fitted = elim f.fitted [ inl e ↦ inr (rw e h) | inr g ↦ inr (rw append_assoc at g) ];
    full = λ next rest e.
        rw (append_assoc taken (instruction item ∷ []) (map instruction (take k items))) at
          (f.full next rest e);
  }

  fitting_sound :
      (taken : List I) (items : List T) (count : ℕ)
      → (k : ℕ) × (fitting wire instruction taken items count ≡ count + k) × IsFitting taken items k
  unfolding fitting
  fitting_sound taken [] count = (
    0,
    omega arith,
    record { bounded = omega arith; fitted = inl refl; full = λ next rest e. cc },
  )
  fitting_sound taken (item ∷ items) count =
      elim (Bool-cases (ltb max_tx_bytes (tx_byte_size wire (taken ++ instruction item ∷ [])))) [
        | inl large ↦ (0, ground arith, IsFitting-skip taken item items (ground arith))
        | inr small ↦
            let (k, e, f) = fitting_sound (taken ++ instruction item ∷ []) items (count + 1) in
            (suc k, ground arith, IsFitting-take taken item items k (ground arith) f)
      ]

  -- the number of items that one round of the loop takes
  abbrev taken_by : List I → List T → ℕ
  taken_by prefix items = max (fitting wire instruction prefix items 0) 1

  -- what one round of the loop makes of the items that are left
  abbrev batch_of : List I → List T → InstructionBatch I T
  batch_of prefix items = record {
    instructions = prefix ++ map instruction (take (taken_by prefix items) items);
    items = take (taken_by prefix items) items;
  }

  abbrev IsBounded : InstructionBatch I T → Type 0
  IsBounded batch = Fits batch.instructions ⊎ (length batch.items ≤ 1)

  -- One item more than the batch holds would not have fitted, or the batch is one item too large.
  abbrev IsGreedy : InstructionBatch I T → T → Type 0
  IsGreedy batch next =
      IsTooLarge batch.instructions ⊎ IsTooLarge (batch.instructions ++ instruction next ∷ [])

  abbrev IsGreedyBefore : InstructionBatch I T → List T → Type 0
  IsGreedyBefore batch [] = Unit
  IsGreedyBefore batch (next ∷ rest) = IsGreedy batch next

  module _ (prefix : List I) (item : T) (items : List T) where
    IsBounded-at :
        (k n : ℕ)
        → n ≡ max k 1
        → IsFitting prefix (item ∷ items) k
        → IsBounded (record {
          instructions = prefix ++ map instruction (take n (item ∷ items));
          items = take n (item ∷ items);
        })
    IsBounded-at zero n e f = let one : n ≡ 1 = omega arith in rw one (inr (omega arith))
    IsBounded-at (suc k) n e f =
        let same : n ≡ suc k = omega arith in
        rw same (elim f.fitted [ inl absent ↦ absurd (omega arith) | inr fit ↦ inl fit ])

    IsGreedy-at :
        (k n : ℕ) (next : T) (rest : List T)
        → n ≡ max k 1
        → drop n (item ∷ items) ≡ next ∷ rest
        → IsFitting prefix (item ∷ items) k
        → IsGreedy
            (record {
              instructions = prefix ++ map instruction (take n (item ∷ items));
              items = take n (item ∷ items);
            })
            next
    IsGreedy-at zero n next rest e d f =
        let one : n ≡ 1 = omega arith in rw one (inl (rw append-nil at (f.full item items refl)))
    IsGreedy-at (suc k) n next rest e d f =
        let same : n ≡ suc k = omega arith in rw same (inr (f.full next rest (rw same at d)))

    batch_of-IsBounded : IsBounded (batch_of prefix (item ∷ items))
    batch_of-IsBounded =
        let (k, e, f) = fitting_sound prefix (item ∷ items) 0 in
        IsBounded-at k (taken_by prefix (item ∷ items)) (omega (arith, e)) f

    batch_of-IsGreedy :
        (left : List T)
        → drop (taken_by prefix (item ∷ items)) (item ∷ items) ≡ left
        → IsGreedyBefore (batch_of prefix (item ∷ items)) left
    batch_of-IsGreedy [] d = tt
    batch_of-IsGreedy (next ∷ rest) d =
        let (k, e, f) = fitting_sound prefix (item ∷ items) 0 in
        IsGreedy-at k (taken_by prefix (item ∷ items)) next rest (omega (arith, e)) d f

  -- fuel is enough as long as it is at least the number of items that are left
  left_below :
      (n fuel : ℕ) (item : T) (items : List T)
      → length items < suc fuel
      → length (drop (max n 1) (item ∷ items)) ≤ fuel
  left_below n fuel item items h = omega (arith, length-drop (max n 1) (item ∷ items))

  concat_items-pack_loop :
      (fuel : ℕ) (prefix : List I) (items : List T)
      → length items ≤ fuel
      → concat (map (λ b. b.items) (pack_loop wire instruction fuel prefix items)) ≡ items
  unfolding pack_loop
  concat_items-pack_loop zero prefix [] h = refl
  concat_items-pack_loop zero prefix (item ∷ items) h = absurd (omega arith)
  concat_items-pack_loop (suc fuel) prefix [] h = refl
  concat_items-pack_loop (suc fuel) prefix (item ∷ items) h =
      let n = taken_by prefix (item ∷ items) in
      rw
        (concat_items-pack_loop fuel [] (drop n (item ∷ items)) (
          left_below (fitting wire instruction prefix (item ∷ items) 0) fuel item items
            (omega arith)))
        (take-append-drop n (item ∷ items))

  rejoin :
      (prefix : List I) (n : ℕ) (items : List T)
      → (prefix ++ map instruction (take n items)) ++ map instruction (drop n items)
        ≡ prefix ++ map instruction items
  rejoin prefix n items =
      rw (append_assoc prefix (map instruction (take n items)) (map instruction (drop n items))) (
        rw (← map-append instruction (take n items) (drop n items)) (rw (take-append-drop n items)))

  concat_instructions_rest :
      (fuel : ℕ) (items : List T)
      → length items ≤ fuel
      → concat (map (λ b. b.instructions) (pack_loop wire instruction fuel [] items))
        ≡ map instruction items
  unfolding pack_loop
  concat_instructions_rest zero [] h = refl
  concat_instructions_rest zero (item ∷ items) h = absurd (omega arith)
  concat_instructions_rest (suc fuel) [] h = refl
  concat_instructions_rest (suc fuel) (item ∷ items) h =
      let n = taken_by [] (item ∷ items) in
      rw
        (concat_instructions_rest fuel (drop n (item ∷ items))
          (left_below (fitting wire instruction [] (item ∷ items) 0) fuel item items (omega arith)))
        (rejoin [] n (item ∷ items))

  concat_instructions-pack_loop :
      (fuel : ℕ) (prefix : List I) (item : T) (items : List T)
      → length items < fuel
      → concat (map (λ b. b.instructions) (pack_loop wire instruction fuel prefix (item ∷ items)))
        ≡ prefix ++ map instruction (item ∷ items)
  unfolding pack_loop
  concat_instructions-pack_loop zero prefix item items h = absurd (omega arith)
  concat_instructions-pack_loop (suc fuel) prefix item items h =
      let n = taken_by prefix (item ∷ items) in
      rw
        (concat_instructions_rest fuel (drop n (item ∷ items)) (
          left_below (fitting wire instruction prefix (item ∷ items) 0) fuel item items
            (omega arith)))
        (rejoin prefix n (item ∷ items))

  -- Each batch is within the limit, or holds one item at most, and could not take the next item.
  abbrev pub Packed : List (InstructionBatch I T) → Type 0
  Packed [] = Unit
  Packed (b ∷ bs) = IsBounded b × IsGreedyBefore b (concat (map (λ c. c.items) bs)) × Packed bs

  Packed-pack_loop :
      (fuel : ℕ) (prefix : List I) (items : List T)
      → length items ≤ fuel
      → Packed (pack_loop wire instruction fuel prefix items)
  unfolding pack_loop
  Packed-pack_loop zero prefix items h = tt
  Packed-pack_loop (suc fuel) prefix [] h = tt
  Packed-pack_loop (suc fuel) prefix (item ∷ items) h =
      let n = taken_by prefix (item ∷ items) in
      let below =
        left_below (fitting wire instruction prefix (item ∷ items) 0) fuel item items
          (omega arith) in
      (
        batch_of-IsBounded prefix item items,
        batch_of-IsGreedy prefix item items _
            (sym (concat_items-pack_loop fuel [] (drop n (item ∷ items)) below)),
        Packed-pack_loop fuel [] (drop n (item ∷ items)) below,
      )

  -- The batches hold the items in order, each once; their instructions are the prefix, once, and the
  -- items' instructions.
  pub pack_instruction_batches_with_items_complete :
      (items : List T) (prefix_ixs : List I)
      → (concat (
            map
              (λ b. b.items)
              (pack_instruction_batches_with_items wire instruction items prefix_ixs))
          ≡ items)
        × (concat (
              map
                (λ b. b.instructions)
                (pack_instruction_batches_with_items wire instruction items prefix_ixs))
            ≡ prefix_ixs ++ map instruction items)
  unfolding pack_instruction_batches_with_items
  pack_instruction_batches_with_items_complete [] [] = (refl, refl)
  pack_instruction_batches_with_items_complete [] (ix ∷ prefix_ixs) = (refl, refl)
  pack_instruction_batches_with_items_complete (item ∷ items) prefix_ixs = (
    concat_items-pack_loop (length (item ∷ items)) prefix_ixs (item ∷ items) (omega arith),
    concat_instructions-pack_loop (length (item ∷ items)) prefix_ixs item items (omega arith),
  )

  -- Every batch fits a transaction, or holds one item at most; and the first item of the batch that
  -- follows would not have fitted into it, unless the batch is itself too large.
  pub pack_instruction_batches_with_items-Packed :
      (items : List T) (prefix_ixs : List I)
      → Packed (pack_instruction_batches_with_items wire instruction items prefix_ixs)
  unfolding pack_instruction_batches_with_items
  pack_instruction_batches_with_items-Packed [] [] = tt
  pack_instruction_batches_with_items-Packed [] (ix ∷ prefix_ixs) = (inr (omega arith), tt, tt)
  pack_instruction_batches_with_items-Packed (item ∷ items) prefix_ixs =
      Packed-pack_loop (length (item ∷ items)) prefix_ixs (item ∷ items) (omega arith)
