-- ===== src/Selector/Rounds.antt =====
-- src/lib/selector.c: what a round of the selector does.
use smtp_protos.Prelude.{
  ℕ, zero, suc, ◌+◌, ◌≤◌, ◌<◌, ◌≡◌, List, [], ◌∷◌, Option, none, some, arith, length, Bool, true,
  false, ◌&&◌, Bool-cases, inl, inr, refl,
}
use smtp_protos.Prelude.{get_elem?, Reading, get_elem?-cases}
use smtp_protos.Selector.{
  Selector, Item, SelectorStatus, selector_success, selector_io, op_read, op_write,
}
use smtp_protos.Selector.Iteration.{
  FdHandlers, Selected, ready, interrupted, failed, with_item, call_handler, visit_read,
  visit_write, visit_item, visit_block, visit, visit_all, handle_iteration,
  handle_block_notifications, selector_select,
}

-- What holds at each point of a round, of the table and the world: `Q i` when the places below `i` have
-- been visited, `M i item` at the place `i` between reading and writing, where `item` is what stood
-- there before the read, and `B jobs` when those jobs are left.
module _ (R : Reading) {H D W : Type 0} (hs : FdHandlers H D W) (Q : ℕ → Selector H D → W → Type 0)
    (M : ℕ → Item H D → Selector H D → W → Type 0) (B : List ℕ → Selector H D → W → Type 0) where
  open R use {Holds, holds_some, holds_bind}

  -- The item stands in that place.
  abbrev pub Stands : ℕ → Item H D → Selector H D → Type 0
  Stands i item s = get_elem? s.fds i ≡ some (some item)

  abbrev pub Free : ℕ → Selector H D → Type 0
  Free i s = get_elem? s.fds i ≡ some none

  -- Each place as far as `n` is there and is passed: where no item stands, nothing is done; the handler
  -- for reading is called if the item asks for it and its descriptor is ready, otherwise nothing is done;
  -- then the same for writing with what stands there by then.
  pub record Visits (slave_r slave_w : ℕ → Bool) (n : ℕ) : Type 0 where
    pub there : (i : ℕ) (s : Selector H D) (w : W) → i ≤ n → Q i s w → i < length s.fds
    pub still_there :
        (i : ℕ) (item : Item H D) (s : Selector H D) (w : W) → M i item s w → i < length s.fds
    pub empty : (i : ℕ) (s : Selector H D) (w : W) → Q i s w → Free i s → Q (suc i) s w
    pub reads :
        (i : ℕ) (item : Item H D) (s : Selector H D) (w : W)
        → Q i s w
        → Stands i item s
        → (slave_r item.fd && op_read item.interest) ≡ true
        → Holds (call_handler (hs.handle_read item.handler) item s w) (λ r. M i item r.0 r.1)
    pub no_read :
        (i : ℕ) (item : Item H D) (s : Selector H D) (w : W)
        → Q i s w
        → Stands i item s
        → (slave_r item.fd && op_read item.interest) ≡ false
        → M i item s w
    pub gone :
        (i : ℕ) (item : Item H D) (s : Selector H D) (w : W)
        → M i item s w
        → Free i s
        → Q (suc i) s w
    pub writes :
        (i : ℕ) (item now : Item H D) (s : Selector H D) (w : W)
        → M i item s w
        → Stands i now s
        → (slave_w i && op_write now.interest) ≡ true
        → Holds (call_handler (hs.handle_write now.handler) item s w) (λ r. Q (suc i) r.0 r.1)
    pub no_write :
        (i : ℕ) (item now : Item H D) (s : Selector H D) (w : W)
        → M i item s w
        → Stands i now s
        → (slave_w i && op_write now.interest) ≡ false
        → Q (suc i) s w

  -- The place of each job is there, and its handler is called if an item stands in it.
  pub record Jobs : Type 0 where
    pub known :
        (fd : ℕ) (jobs : List ℕ) (s : Selector H D) (w : W) → B (fd ∷ jobs) s w → fd < length s.fds
    pub dropped :
        (fd : ℕ) (jobs : List ℕ) (s : Selector H D) (w : W)
        → B (fd ∷ jobs) s w
        → Free fd s
        → B jobs s w
    pub done :
        (fd : ℕ) (jobs : List ℕ) (item : Item H D) (s : Selector H D) (w : W)
        → B (fd ∷ jobs) s w
        → Stands fd item s
        → Holds (call_handler (hs.handle_block item.handler) item s w) (λ r. B jobs r.0 r.1)

  with_item_lem :
      (i : ℕ) (run : Item H D → Selector H D → W → Option (Selector H D × W)) (s : Selector H D)
      (w : W) (P : Selector H D × W → Type 0)
      → i < length s.fds
      → (Free i s → P (s, w))
      → ((item : Item H D) → Stands i item s → Holds (run item s w) P)
      → Holds (with_item i run s w) P
  with_item_lem i run s w P h free k = elim (get_elem?-cases s.fds i) [
    | inl (e, g) ↦ absurd (omega arith)
    | inr (none, e) ↦ rw (with_item, e) (holds_some P (s, w) (free e))
    | inr (some item, e) ↦ rw (with_item, e) (k item e)
  ]

  visit_lem :
      (slave_r slave_w : ℕ → Bool) (n i : ℕ) (s : Selector H D) (w : W)
      → Visits slave_r slave_w n
      → i ≤ n
      → Q i s w
      → Holds (visit hs slave_r slave_w i s w) (λ r. Q (suc i) r.0 r.1)
  unfolding visit
  visit_lem slave_r slave_w n i s w v h q =
      with_item_lem i (visit_item hs slave_r slave_w i) s w (λ r. Q (suc i) r.0 r.1)
        (v.there i s w h q) (λ e. v.empty i s w q e)
        (λ item at.
          holds_bind (λ r. M i item r.0 r.1) (λ r. Q (suc i) r.0 r.1)
            (visit_read hs slave_r item s w) _
            (λ r m.
              with_item_lem i (visit_write hs slave_w i item) r.0 r.1 (λ r. Q (suc i) r.0 r.1)
                (v.still_there i item r.0 r.1 m) (λ e. v.gone i item r.0 r.1 m e)
                (λ now at'. elim (Bool-cases (slave_w i && op_write now.interest)) [
                  | inl e ↦ rw e (v.writes i item now r.0 r.1 m at' e)
                  | inr e ↦ rw e (holds_some _ r (v.no_write i item now r.0 r.1 m at' e))
                ]))
            (elim (Bool-cases (slave_r item.fd && op_read item.interest)) [
              | inl e ↦ rw e (v.reads i item s w q at e)
              | inr e ↦ rw e (holds_some _ (s, w) (v.no_read i item s w q at e))
            ]))

  visit_all_lem :
      (slave_r slave_w : ℕ → Bool) (n m i : ℕ) (s : Selector H D) (w : W)
      → Visits slave_r slave_w n
      → m + i ≡ n + 1
      → Q i s w
      → Holds (visit_all hs slave_r slave_w m i s w) (λ r. Q (n + 1) r.0 r.1)
  unfolding visit_all
  visit_all_lem slave_r slave_w n zero i s w v h q =
      let e : i ≡ n + 1 = omega arith in holds_some _ (s, w) (rw e at q)
  visit_all_lem slave_r slave_w n (suc m) i s w v h q =
      holds_bind (λ r. Q (suc i) r.0 r.1) _ (visit hs slave_r slave_w i s w) _
        (λ r p. visit_all_lem slave_r slave_w n m (suc i) r.0 r.1 v (omega arith) p)
        (visit_lem slave_r slave_w n i s w v (omega arith) q)

  blocks_lem :
      (jobs : List ℕ) (s : Selector H D) (w : W)
      → Jobs
      → B jobs s w
      → Holds (handle_block_notifications hs jobs s w) (λ r. B [] r.0 r.1)
  unfolding handle_block_notifications
  blocks_lem [] s w j b = holds_some _ (s, w) b
  blocks_lem (fd ∷ jobs) s w j b =
      holds_bind (λ r. B jobs r.0 r.1) _ (with_item fd (visit_block hs) s w) _
        (λ r c. blocks_lem jobs r.0 r.1 j c)
        (with_item_lem fd (visit_block hs) s w (λ r. B jobs r.0 r.1) (j.known fd jobs s w b)
          (λ e. j.dropped fd jobs s w b e) (λ item at. j.done fd jobs item s w b at))

  -- What is asked before a round: the places are passed as far as the greatest descriptor of the table,
  -- and what holds after the last of them holds before the jobs.
  abbrev pub Begins : Selected → List ℕ → Selector H D → W → Type 0
  Begins (ready slave_r slave_w) jobs s w =
      Visits slave_r slave_w s.max_fd
      × Q 0 s w
      × ((t : Selector H D) (v : W) → Q (s.max_fd + 1) t v → B jobs t v)
  Begins interrupted jobs s w = B jobs s w
  Begins failed jobs s w = Unit

  -- A failed pselect leaves all as it is; otherwise no job is left.
  abbrev pub Selects :
      Selected → List ℕ → Selector H D → W → SelectorStatus × List ℕ × Selector H D × W → Type 0
  Selects failed jobs s w r = r ≡ (selector_io, jobs, s, w)
  Selects _ jobs s w r = (r.0 ≡ selector_success) × (r.1 ≡ []) × B [] r.2 r.3

  -- selector_select passes every place from 0 to the greatest descriptor, in this order, then every job
  -- in its order: what holds before a place and is carried on by each handler that has to be called
  -- there, and only by these, holds after the last place; the same for the jobs, to the end. If pselect
  -- is interrupted only the jobs are passed, and if it fails nothing changes.
  pub selector_select_lem :
      (pselect : Selected) (jobs : List ℕ) (s : Selector H D) (w : W)
      → Jobs
      → Begins pselect jobs s w
      → Holds (selector_select hs pselect jobs s w) (Selects pselect jobs s w)
  unfolding selector_select handle_iteration
  selector_select_lem (ready slave_r slave_w) jobs s w j (v, q, next) =
      holds_bind (λ r. Q (s.max_fd + 1) r.0 r.1) _
        (visit_all hs slave_r slave_w (s.max_fd + 1) 0 s w) _
        (λ r p.
          holds_bind (λ r. B [] r.0 r.1) _ (handle_block_notifications hs jobs r.0 r.1) _
            (λ u b. holds_some _ (selector_success, [], u.0, u.1) (refl, refl, b))
            (blocks_lem jobs r.0 r.1 j (next r.0 r.1 p)))
        (visit_all_lem slave_r slave_w s.max_fd (s.max_fd + 1) 0 s w v (omega arith) q)
  selector_select_lem interrupted jobs s w j b =
      holds_bind (λ r. B [] r.0 r.1) _ (handle_block_notifications hs jobs s w) _
        (λ u c. holds_some _ (selector_success, [], u.0, u.1) (refl, refl, c))
        (blocks_lem jobs s w j b)
  selector_select_lem failed jobs s w j b = holds_some _ (selector_io, jobs, s, w) refl
