-- ===== src/Client/Hook/Laws.antt =====
-- The loop over the seeds of a derived account ends: each turn moves on.
use multi_delegator.Base.{
  ℕ, zero, suc, ◌+◌, ◌≤◌, ◌<◌, String, ◌≡◌, refl, ap, inl, inr, false, Option, none, some, List,
  ◌∷◌, arith, ltb, ◌==◌, Bool-cases, get_elem?, drop,
}
use multi_delegator.Base.Result.{Result, ok, throw, ◌>>=◌, >>=-eq-ok, ok_inj}
use multi_delegator.Client.Delegations.{required}
use mathlib.Core.Path.{subst}
use multi_delegator.Client.Hook.{
  HookKit, seed_step, advance, SeedStep, address_seed, account_data_seed, literal_seed, follow,
  seed_at, seeds_from, finish, last, sub_bytes, unpack_seeds, address_at, fetch_data,
}
use multi_delegator.Client.Types.{AccountMeta}

-- a step that goes on moves on
abbrev Moves : SeedStep → Type 0
Moves (advance seed width) = 1 ≤ width
Moves _ = Unit

throw_ne {ℓ} : {A : Type ℓ} {e : String} {a : A} → Result.throw e ≡ ok a → ⊥
throw_ne h = cc

bind_congruent {ℓ κ} :
    {A : Type ℓ} {B : Type κ} (m : Result A) (f g : A → Result B)
    → ((a : A) → m ≡ ok a → f a ≡ g a)
    → (m >>= f) ≡ (m >>= g)
bind_congruent (throw e) f g h = refl
bind_congruent (ok a) f g h = h a refl

module _ (kit : HookKit) (previous : List AccountMeta) (instruction_data : List ℕ) where
  address_seed-Moves :
      (rest : List ℕ) (step : SeedStep)
      → address_seed kit previous instruction_data rest ≡ ok step
      → Moves step
  address_seed-Moves rest step h =
      let one : 1 ≤ 2 = omega arith in
      let (address, _, h1) =
        >>=-eq-ok (address_at previous (get_elem? rest 0))
          (λ address. kit.encode_address address >>= λ seed. ok (advance seed 2)) h in
      let (seed, _, h2) = >>=-eq-ok (kit.encode_address address) (λ seed. ok (advance seed 2)) h1 in
      subst Moves {x = advance seed 2} (ok_inj h2) one

  account_data_seed-Moves :
      (rest : List ℕ) (step : SeedStep)
      → account_data_seed kit previous instruction_data rest ≡ ok step
      → Moves step
  account_data_seed-Moves rest step h =
      let one : 1 ≤ 4 = omega arith in
      let (address, _, h1) =
        >>=-eq-ok (address_at previous (get_elem? rest 0))
          (λ address. fetch_data kit address >>= λ bytes.
            ok (advance (sub_bytes (get_elem? rest 1) (get_elem? rest 2) bytes) 4))
          h in
      let (bytes, _, h2) =
        >>=-eq-ok (fetch_data kit address)
          (λ bytes. ok (advance (sub_bytes (get_elem? rest 1) (get_elem? rest 2) bytes) 4)) h1 in
      subst Moves {x = advance (sub_bytes (get_elem? rest 1) (get_elem? rest 2) bytes) 4}
        (ok_inj h2) one

  literal_seed-Moves :
      (count : Option ℕ) (rest : List ℕ)
      → Moves (literal_seed kit previous instruction_data count rest)
  literal_seed-Moves none rest = tt
  literal_seed-Moves (some count) rest = omega arith

  seed_step-Moves :
      (discriminator : ℕ) (rest : List ℕ) (step : SeedStep)
      → seed_step kit previous instruction_data discriminator rest ≡ ok step
      → Moves step
  unfolding seed_step
  seed_step-Moves discriminator rest step h = elim (Bool-cases (discriminator == 0)) [
    | inl e ↦ subst Moves (ok_inj (rw e at h)) tt
    | inr e ↦ elim (Bool-cases (discriminator == 1)) [
      | inl f ↦ subst Moves (ok_inj (rw (e, f) at h)) (literal_seed-Moves (get_elem? rest 0) rest)
      | inr f ↦ elim (Bool-cases (discriminator == 2)) [
        | inl g ↦ subst Moves (ok_inj (rw (e, f, g) at h)) (omega arith)
        | inr g ↦ elim (Bool-cases (discriminator == 3)) [
          | inl k ↦ address_seed-Moves rest step (rw (e, f, g, k) at h)
          | inr k ↦ elim (Bool-cases (discriminator == 4)) [
            | inl l ↦ account_data_seed-Moves rest step (rw (e, f, g, k, l) at h)
            | inr l ↦ absurd (throw_ne (rw (e, f, g, k, l) at h))
          ]
        ]
      ]
    ]
  ]

  seed_at-Moves :
      (config : List ℕ) (i : ℕ) (step : SeedStep)
      → seed_at kit previous instruction_data config i ≡ ok step
      → Moves step
  seed_at-Moves config i step h =
      let (discriminator, _, h1) =
        >>=-eq-ok (required (get_elem? config i) "transfer hook: invalid seed") _ h in
      seed_step-Moves discriminator (drop (suc i) config) step h1

  follow_eq :
      (more more' : ℕ → Result (List (List ℕ))) (i : ℕ) (step : SeedStep)
      → Moves step
      → ((j : ℕ) → i < j → more j ≡ more' j)
      → follow more i step ≡ follow more' i step
  follow_eq more more' i finish m h = refl
  follow_eq more more' i (last seed) m h = refl
  follow_eq more more' i (advance seed width) m h =
      ap (λ r. r >>= λ seeds. ok (seed ∷ seeds)) (h (i + width) (omega arith))

  -- from position `i`, as many turns as there are positions left do not run out of fuel
  seeds_from_enough :
      (s t : Result (List (List ℕ))) (f g : ℕ) (config : List ℕ) (i : ℕ)
      → 32 ≤ i + f
      → 32 ≤ i + g
      → seeds_from kit previous instruction_data s (suc f) config i
        ≡ seeds_from kit previous instruction_data t (suc g) config i
  unfolding seeds_from
  seeds_from_enough s t zero g config i hf hg =
      let past : ltb i 32 ≡ false = ground arith in rw past
  seeds_from_enough s t (suc f) zero config i hf hg =
      let past : ltb i 32 ≡ false = ground arith in rw past
  seeds_from_enough s t (suc f) (suc g) config i hf hg = elim (Bool-cases (ltb i 32)) [
    | inr e ↦ rw e
    | inl e ↦
        let first = seeds_from kit previous instruction_data s (suc f) config in
        let second = seeds_from kit previous instruction_data t (suc g) config in
        rw e (
          bind_congruent (seed_at kit previous instruction_data config i) (follow first i)
            (follow second i)
            (λ step h.
              follow_eq first second i step (seed_at-Moves config i step h)
                (λ j l. seeds_from_enough s t f g config j (omega arith) (omega arith))))
  ]

  -- The loop over the seeds ends within its fuel, whatever the account list, the instruction and the
  -- bytes: with any more fuel, and whatever stands for running out of it, the result is the same.
  pub unpack_seeds_fuel :
      (stuck : Result (List (List ℕ))) (fuel : ℕ) (config : List ℕ)
      → 33 ≤ fuel
      → seeds_from kit previous instruction_data stuck fuel config 0
        ≡ unpack_seeds kit previous instruction_data config
  unfolding unpack_seeds
  unpack_seeds_fuel stuck zero config h = absurd (omega arith)
  unpack_seeds_fuel stuck (suc fuel) config h =
      seeds_from_enough stuck (throw "out of fuel") fuel 32 config 0 (omega arith) (omega arith)
