-- ===== src/Stm/Tests.antt =====
-- A run of src/lib/stm.c.
use smtp_protos.Prelude.{
  total, ℕ, zero, suc, ◌+◌, ◌-◌, ◌≤◌, ◌≡◌, [], ◌∷◌, Option, none, some, arith, Returns, refl, ap,
  sym,
}
use smtp_protos.Prelude.{get_elem?}
use smtp_protos.Stm.{StateDefinition, StateMachine, call, stm_handler}
use smtp_protos.Stm.Discipline.{Moves, Keeps, Disciplined, Located, Serves, stm_handler_lem}

-- Two states that take something on arrival and give it back on departure; reading in the first goes
-- to the second.
abbrev taking : ℕ → StateDefinition ℕ
taking n = record {
  state = n;
  on_arrival = some (λ _ k. some (k + 1));
  on_departure = some (λ _ k. some (k - 1));
  on_read_ready = some (λ k. some (1, k));
  on_write_ready = none;
  on_block_ready = none;
}

abbrev two_states : StateMachine ℕ
two_states = record {
  initial = 0;
  states = taking 0 ∷ taking 1 ∷ [];
  max_state = 1;
  current = none;
}

abbrev Free : ℕ → ℕ → Type 0
Free s k = k ≡ 0

abbrev Held : ℕ → ℕ → Type 0
Held s k = k ≡ 1

taking-Keeps : (n : ℕ) → Keeps total Free Held n (taking n)
unfolding call
taking-Keeps n = record { number = refl; arrival = λ k h. omega arith }

two_states_there :
    (s : ℕ)
    → s ≤ 1
    → (d : StateDefinition ℕ) × (get_elem? two_states.states s ≡ some d) × Keeps total Free Held s d
two_states_there zero h = (taking 0, refl, taking-Keeps 0)
two_states_there (suc zero) h = (taking 1, refl, taking-Keeps 1)
two_states_there (suc (suc s)) h = absurd (omega arith)

two_states-Disciplined : Disciplined total Free Held two_states
two_states-Disciplined = record { initial_there = omega arith; there = two_states_there }

abbrev get_read : Option (StateDefinition ℕ) → Option (ℕ → Option (ℕ × ℕ))
get_read none = none
get_read (some d) = d.on_read_ready

abbrev get_departure : Option (StateDefinition ℕ) → Option (ℕ → ℕ → Option ℕ)
get_departure none = none
get_departure (some d) = d.on_departure

taking-Moves :
    (d : StateDefinition ℕ) (k : ℕ)
    → some (taking 0) ≡ some d
    → Held 0 k
    → Moves total Free Held two_states 0 d (1, k)
unfolding call
taking-Moves d k e h =
    let f : d.on_departure ≡ some (λ _ k'. some (k' - 1)) = ap (λ o. get_departure o) (sym e) in
    (omega arith, λ p. omega arith, λ _. rw f (omega arith))

two_states-Serves : Serves total Free Held (λ d. d.on_read_ready) two_states
two_states-Serves d e =
    ((λ k. some (1, k)), ap (λ o. get_read o) (sym e), λ k h. taking-Moves d k e h)

two_states-Located : Located total Free Held two_states none 0
unfolding Located
two_states-Located = refl

stm_handler_lem_example : Returns (stm_handler (λ d. d.on_read_ready) two_states 0) (λ r.
    (r.1 ≡ record two_states { current = some r.0 })
    × Located total Free Held two_states (some r.0) r.2)
stm_handler_lem_example =
    stm_handler_lem total Free Held (λ d. d.on_read_ready) two_states 0 two_states-Disciplined
      two_states-Serves two_states-Located
