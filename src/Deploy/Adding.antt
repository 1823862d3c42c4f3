-- ===== src/Deploy/Adding.antt =====
-- webapp/src/hooks/use-program-deploy.ts: the instructions that an action adds to those that the
-- network took, built along the code.
use multi_delegator.Base.{
  ℕ, String, ◌≡◌, refl, sym, ap, ◌∙◌, Bool, true, false, List, [], ◌∷◌, ◌++◌, append-nil,
  append_assoc, if◌then◌else◌,
}
use multi_delegator.Base.Result.{Result, ok, throw}
use multi_delegator.Client.Types.{Instruction}
use mathlib.Core.Path.{subst}
use multi_delegator.Deploy.Action.{
  Action, Event, raise, lift, ask, ◌>>=◌, go_on, wait, DeployPhase, World, set_progress, waited,
  sent,
}
use multi_delegator.Deploy.Outcome.{OnReturn}
use multi_delegator.Deploy.Keeping.{Keeps}

abbrev pub accepted_of : Event → List (List Instruction)
accepted_of (sent tx (ok signature)) = tx.instructions ∷ []
accepted_of _ = []

-- the instructions of the transactions that the network took, in order
abbrev pub accepted : List Event → List (List Instruction)
accepted [] = []
accepted (event ∷ log) = accepted_of event ++ accepted log

pub accepted-append :
    (log more : List Event) → accepted (log ++ more) ≡ accepted log ++ accepted more
accepted-append [] more = refl
accepted-append (event ∷ log) more =
    ap (λ t. accepted_of event ++ t) (accepted-append log more)
    ∙ sym (append_assoc (accepted_of event) (accepted log) (accepted more))

unfoldable pub accepted_view : World → List (List Instruction)
accepted_view w = accepted w.log

-- An action that returns has added these instructions.
pub record Writes {A : Type 0} (items : List (List Instruction)) (act : Action A) : Type 0 where
  pub writes : (w : World) → OnReturn (λ a v. accepted v.log ≡ accepted w.log ++ items) (act w)

module _ {A : Type 0} where
  go_on-Writes_after :
      {B : Type 0} (r : Result B × World) (next : B → Action A)
      (before first items : List (List Instruction))
      → OnReturn (λ b v. accepted v.log ≡ before ++ first) r
      → ((b : B) → Writes items (next b))
      → OnReturn (λ a v. accepted v.log ≡ before ++ (first ++ items)) (go_on r next)
  go_on-Writes_after (throw message, w) next before first items h rest = tt
  go_on-Writes_after (ok b, w) next before first items h rest =
      subst (λ s. OnReturn (λ a v. accepted v.log ≡ s) (next b w))
        (ap (λ t. t ++ items) h ∙ append_assoc before first items) ((rest b).writes w)

  pub >>=-Writes :
      {B : Type 0} {act : Action B} {next : B → Action A} {first items : List (List Instruction)}
      → Writes first act
      → ((b : B) → Writes items (next b))
      → Writes (first ++ items) (act >>= next)
  unfolding ◌>>=◌
  >>=-Writes {act = act} {next = next} {first = first} {items = items} start rest = record {
    writes =
        λ w. go_on-Writes_after (act w) next (accepted w.log) first items (start.writes w) rest;
  }

  OnReturn-same :
      (r : Result A × World) (before : List (List Instruction))
      → accepted_view r.1 ≡ before
      → OnReturn (λ a v. accepted v.log ≡ before ++ []) r
  unfolding accepted_view
  OnReturn-same (throw message, w) before same = tt
  OnReturn-same (ok a, w) before same = same ∙ sym (append-nil before)

  pub Keeps-Writes : {act : Action A} → Keeps accepted_view act → Writes [] act
  unfolding accepted_view
  Keeps-Writes {act = act} h = record {
    writes = λ w. OnReturn-same (act w) (accepted w.log) (h.kept w);
  }

  -- where the value that is lifted is known
  pub lifted-Writes :
      {B : Type 0} (answer : Result B) (b : B) (next : B → Action A)
      {items : List (List Instruction)}
      → answer ≡ ok b
      → Writes items (next b)
      → Writes items (lift answer >>= next)
  unfolding lift ◌>>=◌
  lifted-Writes answer b next h rest = record { writes = λ w. rw h (rest.writes w) }

pub ask-Keeps_accepted :
    {A : Type 0} (event : Event) (answer : List Event → Result A)
    → accepted_of event ≡ []
    → Keeps accepted_view (ask event answer)
unfolding ask accepted_view
ask-Keeps_accepted event answer silent = record {
  kept = λ w.
      accepted-append w.log (event ∷ [])
      ∙ ap (λ t. accepted w.log ++ (t ++ [])) silent
      ∙ append-nil (accepted w.log);
}

pub set_progress-Keeps_accepted :
    (current : ℕ) (message : String) (phase : DeployPhase) (total : ℕ)
    → Keeps accepted_view (set_progress current message phase total)
unfolding set_progress accepted_view
set_progress-Keeps_accepted current message phase total = record { kept = λ w. refl }

pub raise-Writes :
    {A : Type 0} (items : List (List Instruction)) (message : String)
    → Writes items (raise {A = A} message)
unfolding raise
raise-Writes items message = record { writes = λ w. tt }

pub wait-Keeps_accepted : Keeps accepted_view wait
unfolding wait
wait-Keeps_accepted = ask-Keeps_accepted waited (λ log. ok tt) refl

pub if-Writes :
    {A : Type 0} (test : Bool) {items : List (List Instruction)} {on_true on_false : Action A}
    → Writes items on_true
    → Writes items on_false
    → Writes items (if test then on_true else on_false)
if-Writes true first second = first
if-Writes false first second = second
