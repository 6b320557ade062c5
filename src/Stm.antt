-- ===== src/Stm.antt =====
-- src/lib/stm.c: the engine of state machines. `K` is what a key gives the callbacks to work on;
-- `none` is abort(3), a state read outside the array, or a fault of a
-- callback.
pub mod Discipline
mod Tests
use smtp_protos.Prelude.{
  ℕ, zero, suc, ◌+◌, ◌-◌, ◌*◌, ◌/◌, ◌%◌, ◌^◌, ◌≤◌, ◌<◌, ◌≡◌, ◌≢◌, ◌↔◌, ◌⊎◌, List, [], ◌∷◌, ◌++◌,
  Option, none, some, arith, length, set, Bool, true, false, ltb, leb, ◌==◌, ◌&&◌, ◌||◌, not,
  length-set, length-take, Returns, Returns-some, get_or, length-replicate, take, drop,
  if◌then◌else◌, ◌>>=◌, ◌>>◌, Bool-cases, Option-cases, inl, inr, refl, Returns-bind, Returns-mono,
  All, All-mono, filled, replicate, length-filled, set-filled, set-filled_end, set-replicate,
  length-append, ap, sym, ◌∙◌, append-nil, append_assoc, store, codes, ℤ, pos, negsuc, map, assert,
  dec_lt, ℕ_discrete,
}
use smtp_protos.Prelude.{get_elem?}

-- struct state_definition; a callback may be NULL.
pub record StateDefinition (K : Type 0) : Type 0 where
  pub state : ℕ
  pub on_arrival : Option (ℕ → K → Option K)
  pub on_departure : Option (ℕ → K → Option K)
  pub on_read_ready : Option (K → Option (ℕ × K))
  pub on_write_ready : Option (K → Option (ℕ × K))
  pub on_block_ready : Option (K → Option (ℕ × K))

-- struct state_machine; `current` is the place of the current state, if there is one.
pub record StateMachine (K : Type 0) : Type 0 where
  pub initial : ℕ
  pub states : List (StateDefinition K)
  pub max_state : ℕ
  pub current : Option ℕ

-- Two states are the same place of the array.
abbrev pub is_at : Option ℕ → ℕ → Bool
is_at none next = false
is_at (some at) next = at == next

module _ {K : Type 0} where
  -- The states from the place `i` on are numbered as they stand, for `n` of them.
  unfoldable pub numbered : ℕ → ℕ → List (StateDefinition K) → Bool
  numbered zero i ds = true
  numbered (suc n) i [] = false
  numbered (suc n) i (d ∷ ds) = i == d.state && numbered n (suc i) ds

  unfoldable pub stm_init : StateMachine K → Option (StateMachine K)
  stm_init stm =
      if not (numbered (stm.max_state + 1) 0 stm.states)
      then none
      else if not (ltb stm.initial stm.max_state)
      then none
      else some (record stm { current = none })

  -- A callback that may be NULL.
  unfoldable pub call : Option (ℕ → K → Option K) → ℕ → K → Option K
  call none state k = some k
  call (some f) state k = f state k

  -- The machine in a state, after its arrival callback.
  unfoldable pub arrive : StateMachine K → ℕ → K → Option (StateMachine K × K)
  unfolding call
  arrive stm next k = do
    d ← get_elem? stm.states next
    k' ← call d.on_arrival d.state k
    some (record stm { current = some next }, k')

  -- What the departure callback of the current state, if there is one, does.
  unfoldable pub depart : StateMachine K → K → Option K
  unfolding call
  depart stm k = elim (stm.current) [
    | none ↦ some k
    | some at ↦ do d ← get_elem? stm.states at; call d.on_departure d.state k
  ]

  unfoldable pub handle_first : StateMachine K → K → Option (StateMachine K × K)
  unfolding arrive
  handle_first stm k = elim (stm.current) [
    | none ↦ arrive stm stm.initial k
    | some _ ↦ some (stm, k)
  ]

  unfoldable pub jump : StateMachine K → ℕ → K → Option (StateMachine K × K)
  unfolding arrive depart
  jump stm next k =
      if ltb stm.max_state next
      then none
      else if is_at stm.current next
      then some (stm, k)
      else (do k' ← depart stm k; arrive stm next k')

  -- What stm_handler_read, stm_handler_write and stm_handler_block share; `ready` is the callback
  -- that they call.
  unfoldable pub stm_handler :
      (StateDefinition K → Option (K → Option (ℕ × K)))
      → StateMachine K
      → K
      → Option (ℕ × StateMachine K × K)
  stm_handler ready stm k = do
    (stm₁, k₁) ← handle_first stm k
    at ← stm₁.current
    d ← get_elem? stm₁.states at
    f ← ready d
    (next, k₂) ← f k₁
    (stm₂, k₃) ← jump stm₁ next k₂
    some (next, stm₂, k₃)

  unfoldable pub stm_handler_read : StateMachine K → K → Option (ℕ × StateMachine K × K)
  stm_handler_read = stm_handler (λ d. d.on_read_ready)

  unfoldable pub stm_handler_write : StateMachine K → K → Option (ℕ × StateMachine K × K)
  stm_handler_write = stm_handler (λ d. d.on_write_ready)

  unfoldable pub stm_handler_block : StateMachine K → K → Option (ℕ × StateMachine K × K)
  stm_handler_block = stm_handler (λ d. d.on_block_ready)

  unfoldable pub stm_handler_close : StateMachine K → K → Option K
  unfolding depart
  stm_handler_close stm k = depart stm k

  unfoldable pub stm_state : StateMachine K → Option ℕ
  stm_state stm = elim (stm.current) [
    | none ↦ some stm.initial
    | some at ↦ do d ← get_elem? stm.states at; some d.state
  ]
