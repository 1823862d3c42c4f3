-- ===== src/Collect/Send/Settling.antt =====
-- What sending a group adds to the state: every transfer of the group is settled once, as confirmed
-- or as failed, in order, and submitted by one call that is not split.
use multi_delegator.Base.{
  ℕ, zero, suc, ◌+◌, ◌/◌, ◌≤◌, String, ◌≡◌, refl, sym, ap, ◌≢◌, inl, inr, Bool, true, false, not,
  ◌||◌, List, [], ◌∷◌, ◌++◌, map, append-nil, append_assoc, map-append, arith, ◌==◌, Bool-cases,
  length, take, drop, keep_if, concat, length-append, take-append-drop, length-take, length-drop,
  concat-append, keep_if-append, length-map,
}
use mathlib.Core.Path.{subst}
use multi_delegator.Collect.Send.{
  Sending, Instruction, SubscriberTransfer, ConfirmedSubscriberTransfer, Outcome, Call,
  is_known_pre_broadcast_failure, failure_of, confirmation_of, note_call, confirm, report,
  send_group, signed, failed, unknown_status, after_call,
}
use multi_delegator.Collect.Types.{SubscriberPaymentFailure}

-- `zs` is `xs` and `ys` interleaved, the order of each kept.
pub data Merge {ℓ} {A : Type ℓ} : List A → List A → List A → Type ℓ where
  done : Merge [] [] []
  left : {x : A} {xs ys zs : List A} → Merge xs ys zs → Merge (x ∷ xs) ys (x ∷ zs)
  right : {y : A} {xs ys zs : List A} → Merge xs ys zs → Merge xs (y ∷ ys) (y ∷ zs)

module _ {ℓ} {A : Type ℓ} where
  Merge-append :
      {xs ys zs xs' ys' zs' : List A}
      → Merge xs ys zs
      → Merge xs' ys' zs'
      → Merge (xs ++ xs') (ys ++ ys') (zs ++ zs')
  Merge-append done n = n
  Merge-append (left m) n = left (Merge-append m n)
  Merge-append (right m) n = right (Merge-append m n)

  Merge-left : (xs : List A) → Merge xs [] xs
  Merge-left [] = done
  Merge-left (x ∷ xs) = left (Merge-left xs)

  Merge-right : (xs : List A) → Merge [] xs xs
  Merge-right [] = done
  Merge-right (x ∷ xs) = right (Merge-right xs)

-- A call is final unless it is a group of several transfers that failed in simulation.
abbrev pub is_final_outcome : Outcome → ℕ → Bool
is_final_outcome (signed signature) n = true
is_final_outcome (failed message) n = not (is_known_pre_broadcast_failure message) || n == 1

abbrev pub is_final : Call → Bool
is_final call = is_final_outcome call.outcome (length call.instructions)

-- the instructions that the final calls submitted, in order
abbrev pub submitted : List Call → List Instruction
submitted calls = concat (map (λ c. c.instructions) (keep_if is_final calls))

submitted-append : (cs ds : List Call) → submitted (cs ++ ds) ≡ submitted cs ++ submitted ds
submitted-append cs ds = rw (keep_if-append is_final cs ds) (
    rw (map-append (λ (c : Call). c.instructions) (keep_if is_final cs) (keep_if is_final ds)) (
      concat-append (map (λ (c : Call). c.instructions) (keep_if is_final cs))
        (map (λ (c : Call). c.instructions) (keep_if is_final ds))))

pub record Settled (group : List SubscriberTransfer) (s s' : Sending) : Type 0 where
  pub new_confirmed : List ConfirmedSubscriberTransfer
  pub new_failures : List SubscriberPaymentFailure
  pub new_calls : List Call
  pub confirmed_eq : s'.result.confirmed ≡ s.result.confirmed ++ new_confirmed
  pub failures_eq : s'.result.failures ≡ s.result.failures ++ new_failures
  pub calls_eq : s'.calls ≡ s.calls ++ new_calls
  pub collected_eq : s'.result.collected ≡ s.result.collected + length new_confirmed
  pub merged :
      Merge
        (map (λ c. c.subscriber) new_confirmed)
        (map (λ f. f.subscriber) new_failures)
        (map (λ t. t.subscriber) group)
  pub submitted_eq : submitted new_calls ≡ map (λ t. t.instruction) group

pub Settled-nil : (s : Sending) → Settled [] s s
Settled-nil s = record {
  new_confirmed = [];
  new_failures = [];
  new_calls = [];
  confirmed_eq = sym (append-nil _);
  failures_eq = sym (append-nil _);
  calls_eq = sym (append-nil _);
  collected_eq = omega arith;
  merged = done;
  submitted_eq = refl;
}

pub Settled-append :
    (g h : List SubscriberTransfer) (s s' s'' : Sending)
    → Settled g s s'
    → Settled h s' s''
    → Settled (g ++ h) s s''
Settled-append g h s s' s'' a b = record {
  new_confirmed = a.new_confirmed ++ b.new_confirmed;
  new_failures = a.new_failures ++ b.new_failures;
  new_calls = a.new_calls ++ b.new_calls;
  confirmed_eq =
      rw (b.confirmed_eq, a.confirmed_eq)
        (append_assoc s.result.confirmed a.new_confirmed b.new_confirmed);
  failures_eq =
      rw (b.failures_eq, a.failures_eq)
        (append_assoc s.result.failures a.new_failures b.new_failures);
  calls_eq = rw (b.calls_eq, a.calls_eq) (append_assoc s.calls a.new_calls b.new_calls);
  collected_eq =
      omega (arith, a.collected_eq, b.collected_eq, length-append a.new_confirmed b.new_confirmed);
  merged = simp map-append (Merge-append a.merged b.merged);
  submitted_eq = rw (submitted-append a.new_calls b.new_calls) (
      rw (a.submitted_eq, b.submitted_eq)
        (sym (map-append (λ (t : SubscriberTransfer). t.instruction) g h)));
}

-- A call that is not final adds nothing.
Settled-note_call :
    (group whole : List SubscriberTransfer) (outcome : Outcome) (s s' : Sending)
    → is_final_outcome outcome (length whole) ≡ false
    → Settled group (note_call whole outcome s) s'
    → Settled group s s'
unfolding note_call
Settled-note_call group whole outcome s s' h a = record {
  new_confirmed = a.new_confirmed;
  new_failures = a.new_failures;
  new_calls =
      record { instructions = map (λ t. t.instruction) whole; outcome = outcome } ∷ a.new_calls;
  confirmed_eq = a.confirmed_eq;
  failures_eq = a.failures_eq;
  calls_eq = rw a.calls_eq (
      append_assoc s.calls
        (record { instructions = map (λ t. t.instruction) whole; outcome = outcome } ∷ [])
        a.new_calls);
  collected_eq = a.collected_eq;
  merged = a.merged;
  submitted_eq =
      rw (length-map (λ (t : SubscriberTransfer). t.instruction) whole) (rw h a.submitted_eq);
}

map-subscriber_confirmation :
    (signature : String) (group : List SubscriberTransfer)
    → map (λ c. c.subscriber) (map (confirmation_of signature) group)
      ≡ map (λ t. t.subscriber) group
map-subscriber_confirmation signature [] = refl
map-subscriber_confirmation signature (t ∷ group) =
    ap (λ r. t.subscriber ∷ r) (map-subscriber_confirmation signature group)

map-subscriber_failure :
    (message : String) (group : List SubscriberTransfer)
    → map (λ f. f.subscriber) (map (failure_of message) group) ≡ map (λ t. t.subscriber) group
map-subscriber_failure message [] = refl
map-subscriber_failure message (t ∷ group) =
    ap (λ r. t.subscriber ∷ r) (map-subscriber_failure message group)

Settled-confirm :
    (group : List SubscriberTransfer) (signature : String) (s : Sending)
    → Settled group s (confirm group signature (note_call group (signed signature) s))
unfolding confirm note_call
Settled-confirm group signature s = record {
  new_confirmed = map (confirmation_of signature) group;
  new_failures = [];
  new_calls =
      record { instructions = map (λ t. t.instruction) group; outcome = signed signature } ∷ [];
  confirmed_eq = refl;
  failures_eq = sym (append-nil _);
  calls_eq = refl;
  collected_eq = omega (arith, length-map (confirmation_of signature) group);
  merged = rw (map-subscriber_confirmation signature group) (Merge-left _);
  submitted_eq = append-nil _;
}

Settled-report :
    (group : List SubscriberTransfer) (message text : String) (s : Sending)
    → is_final_outcome (failed message) (length group) ≡ true
    → Settled group s (report group text (note_call group (failed message) s))
unfolding report note_call
Settled-report group message text s h = record {
  new_confirmed = [];
  new_failures = map (failure_of text) group;
  new_calls =
      record { instructions = map (λ t. t.instruction) group; outcome = failed message } ∷ [];
  confirmed_eq = sym (append-nil _);
  failures_eq = refl;
  calls_eq = refl;
  collected_eq = omega arith;
  merged = rw (map-subscriber_failure text group) (Merge-right _);
  submitted_eq =
      rw (length-map (λ (t : SubscriberTransfer). t.instruction) group) (rw h (append-nil _));
}

after_call-Settled :
    (group : List SubscriberTransfer) (s halves : Sending) (outcome : Outcome)
    → (is_final_outcome outcome (length group) ≡ false
        → Settled group (note_call group outcome s) halves)
    → Settled group s (after_call group s halves outcome)
unfolding after_call
after_call-Settled group s halves (signed signature) h = Settled-confirm group signature s
after_call-Settled group s halves (failed message) h =
    elim (Bool-cases (is_known_pre_broadcast_failure message)) [
      | inr unknown ↦
          rw unknown (Settled-report group message (unknown_status message) s (rw unknown))
      | inl known ↦ elim (Bool-cases (length group == 1)) [
        | inl single ↦
            rw (known, single) (Settled-report group message message s (rw (known, single)))
        | inr several ↦
            let split : is_final_outcome (failed message) (length group) ≡ false =
              rw (known, several) in
            rw (known, several)
              (Settled-note_call group group (failed message) s halves split (h split))
      ]
    ]

-- A call for one transfer is final.
several_of_split : (outcome : Outcome) (n : ℕ) → is_final_outcome outcome n ≡ false → n ≢ 1
several_of_split (signed signature) n h = cc
several_of_split (failed message) n h = ground arith

module _ (send_instructions : List Call → List Instruction → Outcome) where
  -- Fuel that is at least the length of the group is enough.
  pub send_group-Settled :
      (fuel : ℕ) (group : List SubscriberTransfer) (s : Sending)
      → length group ≤ fuel
      → Settled group s (send_group send_instructions fuel group s)
  unfolding send_group
  send_group-Settled zero [] s h = Settled-nil s
  send_group-Settled zero (t ∷ group) s h = absurd (omega arith)
  send_group-Settled (suc fuel) [] s h = Settled-nil s
  send_group-Settled (suc fuel) (t ∷ group) s h = after_call-Settled (t ∷ group) s _ _ λ split.
      let whole = t ∷ group in
      let mid = length whole / 2 in
      let outcome = send_instructions s.calls (map (λ t. t.instruction) whole) in
      let s₀ = note_call whole outcome s in
      let s₁ = send_group send_instructions fuel (take mid whole) s₀ in
      let s₂ = send_group send_instructions fuel (drop mid whole) s₁ in
      let several = several_of_split outcome (length whole) split in
      let first =
        send_group-Settled fuel (take mid whole) s₀
          (omega (arith, length-take mid whole, several)) in
      let second =
        send_group-Settled fuel (drop mid whole) s₁
          (omega (arith, length-drop mid whole, several)) in
      subst (λ g. Settled g s₀ s₂) (take-append-drop mid whole)
        (Settled-append (take mid whole) (drop mid whole) s₀ s₁ s₂ first second)
