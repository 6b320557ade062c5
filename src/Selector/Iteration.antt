-- ===== src/Selector/Iteration.antt =====
-- src/lib/selector.c: the calls of the handlers. `W` is the world that the handlers act on, with the
-- table. A handler that is NULL is `none`. The handlers do not make the array move: where
-- the table is made for every descriptor it never grows.
use smtp_protos.Prelude.{
  ℕ, zero, suc, ◌+◌, List, [], ◌∷◌, Option, none, some, Bool, ◌&&◌, if◌then◌else◌, ◌>>=◌,
}
use smtp_protos.Prelude.{get_elem?}
use smtp_protos.Selector.{
  Selector, Item, SelectorStatus, selector_success, selector_enomem, selector_io, op_read, op_write,
}

-- fd_handler, without handle_close: each takes the descriptor and the data of its key.
pub record FdHandlers (H D W : Type 0) : Type 0 where
  pub handle_read : H → Option (ℕ → D → Selector H D → W → Option (Selector H D × W))
  pub handle_write : H → Option (ℕ → D → Selector H D → W → Option (Selector H D × W))
  pub handle_block : H → Option (ℕ → D → Selector H D → W → Option (Selector H D × W))

-- What pselect gives: the two sets, an interrupt, or another error.
pub data Selected : Type 0 where
  ready : (slave_r slave_w : ℕ → Bool) → Selected
  interrupted : Selected
  failed : Selected

unfoldable pub selector_notify_block : (mem : Bool) → ℕ → List ℕ → SelectorStatus × List ℕ
selector_notify_block mem fd jobs =
    if mem then (selector_success, fd ∷ jobs) else (selector_enomem, jobs)

module _ {H D W : Type 0} where
  -- The item of a place, if it is used, is given to `run`.
  abbrev pub with_item :
      ℕ
      → (Item H D → Selector H D → W → Option (Selector H D × W))
      → Selector H D
      → W
      → Option (Selector H D × W)
  with_item i run s w = elim (get_elem? s.fds i) [
    | none ↦ none
    | some none ↦ some (s, w)
    | some (some item) ↦ run item s w
  ]

  -- A handler that must be there.
  abbrev pub call_handler :
      Option (ℕ → D → Selector H D → W → Option (Selector H D × W))
      → Item H D
      → Selector H D
      → W
      → Option (Selector H D × W)
  call_handler none item s w = none
  call_handler (some f) item s w = f item.fd item.data_of s w

module _ {H D W : Type 0} (hs : FdHandlers H D W) where
  abbrev pub visit_read : (ℕ → Bool) → Item H D → Selector H D → W → Option (Selector H D × W)
  visit_read slave_r item s w =
      if slave_r item.fd && op_read item.interest
      then call_handler (hs.handle_read item.handler) item s w
      else some (s, w)

  -- `now` is the item after the read; the key is that of `item`.
  abbrev pub visit_write :
      (ℕ → Bool) → ℕ → Item H D → Item H D → Selector H D → W → Option (Selector H D × W)
  visit_write slave_w i item now s w =
      if slave_w i && op_write now.interest
      then call_handler (hs.handle_write now.handler) item s w
      else some (s, w)

  -- One round of the loop of handle_iteration. The item is read again after its read handler: if it
  -- was unregistered, its interest is OP_NOOP.
  abbrev pub visit_item :
      (ℕ → Bool) → (ℕ → Bool) → ℕ → Item H D → Selector H D → W → Option (Selector H D × W)
  visit_item slave_r slave_w i item s w = do
    (s₁, w₁) ← visit_read slave_r item s w
    with_item i (visit_write slave_w i item) s₁ w₁

  unfoldable pub visit : (ℕ → Bool) → (ℕ → Bool) → ℕ → Selector H D → W → Option (Selector H D × W)
  visit slave_r slave_w i = with_item i (visit_item slave_r slave_w i)

  -- The places from `i` on, `n` of them.
  unfoldable pub visit_all :
      (ℕ → Bool) → (ℕ → Bool) → ℕ → ℕ → Selector H D → W → Option (Selector H D × W)
  visit_all slave_r slave_w zero i s w = some (s, w)
  visit_all slave_r slave_w (suc n) i s w = do
    (s₁, w₁) ← visit slave_r slave_w i s w
    visit_all slave_r slave_w n (suc i) s₁ w₁

  unfoldable pub handle_iteration :
      (ℕ → Bool) → (ℕ → Bool) → Selector H D → W → Option (Selector H D × W)
  handle_iteration slave_r slave_w s w = visit_all slave_r slave_w (s.max_fd + 1) 0 s w

  abbrev pub visit_block : Item H D → Selector H D → W → Option (Selector H D × W)
  visit_block item = call_handler (hs.handle_block item.handler) item

  -- The finished jobs are their descriptors.
  unfoldable pub handle_block_notifications : List ℕ → Selector H D → W → Option (Selector H D × W)
  handle_block_notifications [] s w = some (s, w)
  handle_block_notifications (fd ∷ jobs) s w = do
    (s₁, w₁) ← with_item fd visit_block s w
    handle_block_notifications jobs s₁ w₁

  -- The status, the jobs that are left, the table and the world.
  unfoldable pub selector_select :
      Selected → List ℕ → Selector H D → W → Option (SelectorStatus × List ℕ × Selector H D × W)
  selector_select (ready slave_r slave_w) jobs s w = do
    (s₁, w₁) ← handle_iteration slave_r slave_w s w
    (s₂, w₂) ← handle_block_notifications jobs s₁ w₁
    some (selector_success, [], s₂, w₂)
  selector_select interrupted jobs s w = do
    (s₁, w₁) ← handle_block_notifications jobs s w
    some (selector_success, [], s₁, w₁)
  selector_select failed jobs s w = some (selector_io, jobs, s, w)
