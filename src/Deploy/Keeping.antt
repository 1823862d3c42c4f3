-- ===== src/Deploy/Keeping.antt =====
-- webapp/src/hooks/use-program-deploy.ts: what an action leaves as it was, built along the code.
use multi_delegator.Base.{
  String, ◌≡◌, refl, sym, ap, ◌∙◌, Bool, true, false, List, [], ◌∷◌, ◌++◌, append_assoc,
  if◌then◌else◌,
}
use multi_delegator.Base.Result.{Result, ok, throw}
use multi_delegator.Deploy.Action.{
  Action, Event, Transaction, World, go_on, ◌>>=◌, or_handle, try_catch, sent, pure, raise, lift,
}

abbrev pub sends_of : Event → List (Transaction × Result String)
sends_of (sent tx answer) = (tx, answer) ∷ []
sends_of _ = []

-- the transactions that were sent, with the network's answers
abbrev pub sends : List Event → List (Transaction × Result String)
sends [] = []
sends (event ∷ log) = sends_of event ++ sends log

pub sends-append : (log more : List Event) → sends (log ++ more) ≡ sends log ++ sends more
sends-append [] more = refl
sends-append (event ∷ log) more =
    ap (λ t. sends_of event ++ t) (sends-append log more)
    ∙ sym (append_assoc (sends_of event) (sends log) (sends more))

is_ok : {A : Type 0} → Result A → Bool
is_ok (throw message) = false
is_ok (ok a) = true

-- The chain that returned: its first part returned too, and the rest went on from there.
pub go_on-eq-ok :
    {A B : Type 0} (first : Result A × World) (next : A → Action B) {b : B} {w : World}
    → go_on first next ≡ (ok b, w)
    → (a : A) × (v : World) × (first ≡ (ok a, v)) × (next a v ≡ (ok b, w))
unfolding is_ok
go_on-eq-ok (throw message, v) next returned =
    let both : false ≡ true = ap (λ p. is_ok p.0) returned in cc
go_on-eq-ok (ok a, v) next returned = (a, v, refl, returned)

-- An action leaves the view as it was, whether it returns or throws.
pub record Keeps {O : Type 0} (view : World → O) {A : Type 0} (act : Action A) : Type 0 where
  pub kept : (w : World) → view (act w).1 ≡ view w

module _ {O : Type 0} (view : World → O) {A : Type 0} where
  go_on-Keeps :
      {B : Type 0} (r : Result A × World) (next : A → Action B)
      → ((a : A) → Keeps view (next a))
      → view (go_on r next).1 ≡ view r.1
  go_on-Keeps (throw message, w) next h = refl
  go_on-Keeps (ok a, w) next h = (h a).kept w

  or_handle-Keeps :
      (r : Result A × World) (handler : String → Action A)
      → ((message : String) → Keeps view (handler message))
      → view (or_handle r handler).1 ≡ view r.1
  or_handle-Keeps (ok a, w) handler h = refl
  or_handle-Keeps (throw message, w) handler h = (h message).kept w

module _ {O : Type 0} {view : World → O} {A : Type 0} where
  pub >>=-Keeps :
      {B : Type 0} {act : Action A} {next : A → Action B}
      → Keeps view act
      → ((a : A) → Keeps view (next a))
      → Keeps view (act >>= next)
  unfolding ◌>>=◌
  >>=-Keeps {act = act} {next = next} first rest = record {
    kept = λ w. go_on-Keeps view (act w) next rest ∙ first.kept w;
  }

  pub try_catch-Keeps :
      {act : Action A} {handler : String → Action A}
      → Keeps view act
      → ((message : String) → Keeps view (handler message))
      → Keeps view (try_catch act handler)
  unfolding try_catch
  try_catch-Keeps {act = act} {handler = handler} first rest = record {
    kept = λ w. or_handle-Keeps view (act w) handler rest ∙ first.kept w;
  }

  pub if-Keeps :
      (test : Bool) {on_true on_false : Action A}
      → Keeps view on_true
      → Keeps view on_false
      → Keeps view (if test then on_true else on_false)
  if-Keeps true first second = first
  if-Keeps false first second = second

  pub pure-Keeps : (a : A) → Keeps view (pure a)
  unfolding pure
  pure-Keeps a = record { kept = λ w. refl }

  pub raise-Keeps : (message : String) → Keeps view (raise {A = A} message)
  unfolding raise
  raise-Keeps message = record { kept = λ w. refl }

  pub lift-Keeps : (answer : Result A) → Keeps view (lift answer)
  unfolding lift
  lift-Keeps answer = record { kept = λ w. refl }
