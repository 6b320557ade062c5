-- ===== src/Stm/Discipline.antt =====
-- src/lib/stm.c: the order in which the callbacks of a machine run.
use smtp_protos.Prelude.{
  ℕ, ◌≤◌, ◌<◌, ◌≡◌, ◌≢◌, Option, none, some, arith, true, false, ltb, ◌==◌, Option-cases, inl, inr,
  refl, ap, sym, ℕ_discrete,
}
use smtp_protos.Prelude.{get_elem?, Reading, Option-cases}
use smtp_protos.Stm.{
  StateDefinition, StateMachine, call, arrive, depart, handle_first, jump, stm_handler,
}

-- `Out s` holds where the machine is about to arrive at `s`, and `In s` while it is in `s`.
module _ (R : Reading) {K : Type 0} (Out : ℕ → K → Type 0) (In : ℕ → K → Type 0) where
  open R use {Holds, holds_some, holds_bind}

  -- The arrival at a state turns `Out` of it into `In` of it.
  pub record Keeps (s : ℕ) (d : StateDefinition K) : Type 0 where
    pub number : d.state ≡ s
    pub arrival : (k : K) → Out s k → Holds (call d.on_arrival s k) (λ k'. In s k')

  -- The states of a machine are there, numbered, and keep this.
  pub record Disciplined (stm : StateMachine K) : Type 0 where
    pub initial_there : stm.initial < stm.max_state
    pub there :
        (s : ℕ)
        → s ≤ stm.max_state
        → (d : StateDefinition K) × (get_elem? stm.states s ≡ some d) × Keeps s d

  -- Where the machine is: about to begin, or in a state of its own.
  unfoldable pub Located : StateMachine K → Option ℕ → K → Type 0
  Located stm none k = Out stm.initial k
  Located stm (some s) k = (s ≤ stm.max_state) × In s k

  -- What a callback of the state `s` leaves: the state that it names is one of the machine's; if it
  -- is another, the departure from `s` makes all ready for it.
  abbrev pub Moves : StateMachine K → ℕ → StateDefinition K → ℕ × K → Type 0
  Moves stm s d (next, k) =
      (next ≤ stm.max_state)
      × (next ≡ s → In s k)
      × (next ≢ s → Holds (call d.on_departure s k) (λ k'. Out next k'))

  arrive_lem :
      (stm : StateMachine K) (next : ℕ) (k : K)
      → Disciplined stm
      → next ≤ stm.max_state
      → Out next k
      → Holds (arrive stm next k) (λ r. (r.0 ≡ record stm { current = some next }) × In next r.1)
  unfolding arrive
  arrive_lem stm next k v h o =
      let (d, e, keeps) = v.there next h in
      rw (arrive, e)
        (rw keeps.number (
          holds_bind (λ k'. In next k') _ (call d.on_arrival next k) _
            (λ k' i. holds_some _ (record stm { current = some next }, k') (refl, i))
            (keeps.arrival k o)))

  -- The state in which a callback will find the machine.
  abbrev pub resident : StateMachine K → ℕ
  resident stm = elim (stm.current) [ none ↦ stm.initial | some s ↦ s ]

  resident-le :
      (stm : StateMachine K) (k : K)
      → Disciplined stm
      → Located stm stm.current k
      → resident stm ≤ stm.max_state
  unfolding Located
  resident-le stm k v l = elim (Option-cases stm.current) [
    | inl e ↦ rw e (omega arith)
    | inr (s, e) ↦ rw e ((rw e at l).0)
  ]

  handle_first_lem :
      (stm : StateMachine K) (k : K)
      → Disciplined stm
      → Located stm stm.current k
      → Holds
          (handle_first stm k)
          (λ r. (r.0 ≡ record stm { current = some (resident stm) }) × In (resident stm) r.1)
  unfolding handle_first Located
  handle_first_lem stm k v l = elim (Option-cases stm.current) [
    | inl e ↦ rw e (arrive_lem stm stm.initial k v (omega arith) (rw e at l))
    | inr (s, e) ↦ rw e (holds_some _ _ (refl, (rw e at l).1))
  ]

  jump_lem :
      (stm : StateMachine K) (s next : ℕ) (d : StateDefinition K) (k : K)
      → Disciplined stm
      → get_elem? stm.states s ≡ some d
      → d.state ≡ s
      → Moves stm s d (next, k)
      → Holds
          (jump (record stm { current = some s }) next k)
          (λ r. (r.0 ≡ record stm { current = some next }) × In next r.1)
  unfolding jump depart
  jump_lem stm s next d k v e n m =
      let within : ltb stm.max_state next ≡ false = ground arith in
      elim (ℕ_discrete s next) [
        | yes p ↦
            let same : (s == next) ≡ true = ground arith in
            rw (jump, within, same)
              (holds_some _ _ (ap (λ x. record stm { current = some x }) p, rw p at (m.1 (sym p))))
        | no q ↦
            let other : (s == next) ≡ false = ground arith in
            let from : StateMachine K = record stm { current = some s } in
            let w : Disciplined from = record {
              initial_there = v.initial_there;
              there = v.there;
            } in
            rw (jump, within, other, e, n)
              (holds_bind (λ k'. Out next k') _ (call d.on_departure s k) _
                (λ k' o. arrive_lem from next k' w m.0 o) (m.2 (λ p. q (sym p))))
      ]

  -- Every state that a callback finds has it, and the callback makes a move of the machine.
  abbrev pub Serves : (StateDefinition K → Option (K → Option (ℕ × K))) → StateMachine K → Type 0
  Serves ready stm =
      (d : StateDefinition K)
      → get_elem? stm.states (resident stm) ≡ some d
      → (f : K → Option (ℕ × K)) × (ready d ≡ some f)
        × ((k : K) → In (resident stm) k → Holds (f k) (λ r. Moves stm (resident stm) d r))

  -- If arriving at each state turns `Out` of it into `In` of it, and the callback of the state that
  -- the event finds keeps `In`, or, with the departure, gives `Out` of the state that it names, then
  -- the machine ends in the state that the function returns, with `In` of that state. With callbacks
  -- that return, the event returns: it does not abort.
  pub stm_handler_lem :
      (ready : StateDefinition K → Option (K → Option (ℕ × K))) (stm : StateMachine K) (k : K)
      → Disciplined stm
      → Serves ready stm
      → Located stm stm.current k
      → Holds
          (stm_handler ready stm k)
          (λ r. (r.1 ≡ record stm { current = some r.0 }) × Located stm (some r.0) r.2)
  unfolding stm_handler Located
  stm_handler_lem ready stm k v serves l =
      let h = resident-le stm k v l in
      let (d, f, keeps) = v.there (resident stm) h in
      let (run, g, moves) = serves d f in
      (holds_bind _ _ (handle_first stm k) _
        (λ r p.
          rw (p.0, f, g)
            (holds_bind _ _ (run r.1) _
              (λ u m.
                holds_bind _ _ (jump (record stm { current = some (resident stm) }) u.0 u.1) _
                  (λ w q. holds_some _ (u.0, w.0, w.1) (q.0, (m.0, q.1)))
                  (jump_lem stm (resident stm) u.0 d u.1 v f keeps.number m))
              (moves r.1 p.1)))
        (handle_first_lem stm k v l))
