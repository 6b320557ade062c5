-- ===== src/Selector.antt =====
-- src/lib/selector.c: the table of registered descriptors.
-- `fds` is the array, empty while the pointer is NULL; `fd_size` is its length. A slot that is not
-- in use is `none`. The callbacks of a handler act on what the library sees as opaque data, `W`.
-- A read or write outside the array is a fault.
pub mod Capacity
pub mod Table
pub mod Slots
pub mod Added
pub mod Iteration
pub mod Rounds
pub mod Calls
pub mod Destroy
pub mod Register
pub mod Unregister
mod Tests
use smtp_protos.Prelude.{
  ℕ, zero, suc, ◌+◌, ◌-◌, ◌*◌, ◌/◌, ◌%◌, ◌^◌, ◌≤◌, ◌<◌, ◌≡◌, ◌≢◌, ◌↔◌, ◌⊎◌, List, [], ◌∷◌, ◌++◌,
  Option, none, some, arith, length, set, Bool, true, false, ltb, leb, ◌==◌, ◌&&◌, ◌||◌, not,
  length-set, get_elem?, Returns, Returns-some, get_or, length-replicate, take, drop, if◌then◌else◌,
  ◌>>=◌, ◌>>◌, Bool-cases, Option-cases, inl, inr, refl, Returns-bind, Returns-mono, All, All-mono,
  filled, replicate, length-filled, set-filled, set-filled_end, set-replicate, length-append, ap,
  sym, ◌∙◌, append-nil, append_assoc, store, codes, ℤ, pos, negsuc, map, assert, dec_lt, ℕ_discrete,
}

-- ITEMS_MAX_SIZE, that is FD_SETSIZE.
abbrev pub items_max_size : ℕ
items_max_size = 1024

-- selector_status
pub data SelectorStatus : Type 0 where
  selector_success selector_enomem selector_maxfd selector_iargs selector_fdinuse selector_io :
      SelectorStatus

unfoldable pub selector_error : SelectorStatus → List ℕ
selector_error selector_success = codes "Success"
selector_error selector_enomem = codes "Not enough memory"
selector_error selector_maxfd = codes "Can't handle any more file descriptors"
selector_error selector_iargs = codes "Illegal argument"
selector_error selector_io = codes "I/O error"
selector_error selector_fdinuse = codes "something failed"

-- fd_interest: bit 0 is OP_READ, bit 2 is OP_WRITE.
abbrev pub op_read : ℕ → Bool
op_read interest = interest % 2 == 1

abbrev pub op_write : ℕ → Bool
op_write interest = interest / 4 % 2 == 1

-- The loop of next_capacity; a size_t has 64 bits.
unfoldable pub count_bits : ℕ → ℕ → ℕ → ℕ
count_bits zero tmp bits = bits
count_bits (suc fuel) tmp bits =
    let more = count_bits fuel (tmp / 2) (suc bits) in if tmp == 0 then bits else more

unfoldable pub next_capacity : ℕ → ℕ
next_capacity n =
    let tmp = 2 ^ count_bits 64 n 0 in (if ltb items_max_size tmp then items_max_size else tmp) + 1

-- struct item, with the handler and the data of the program.
pub record Item (H D : Type 0) : Type 0 where
  pub fd : ℕ
  pub interest : ℕ
  pub handler : H
  pub data_of : D

pub record Selector (H D : Type 0) : Type 0 where
  pub fds : List (Option (Item H D))
  pub max_fd : ℕ
  pub master_r : ℕ → Bool
  pub master_w : ℕ → Bool

-- FD_SET and FD_CLR.
abbrev pub fd_put : ℕ → Bool → (ℕ → Bool) → ℕ → Bool
fd_put fd b set i = if i == fd then b else set i

module _ {H D : Type 0} where
  -- The greatest descriptor of the used slots from `i` on, as far as `max`.
  unfoldable pub items_max_fd_from : List (Option (Item H D)) → ℕ → ℕ
  items_max_fd_from [] max = max
  items_max_fd_from (none ∷ rest) max = items_max_fd_from rest max
  items_max_fd_from (some item ∷ rest) max =
      items_max_fd_from rest (if ltb max item.fd then item.fd else max)

  unfoldable pub items_max_fd : Selector H D → ℕ
  items_max_fd s = items_max_fd_from (take (s.max_fd + 1) s.fds) 0

  unfoldable pub items_update_fdset_for_fd : ℕ → ℕ → Selector H D → Selector H D
  items_update_fdset_for_fd fd interest s = record s {
    master_r = fd_put fd (op_read interest) s.master_r;
    master_w = fd_put fd (op_write interest) s.master_w;
  }

  -- `mem` tells whether calloc or realloc gives the memory.
  unfoldable pub ensure_capacity : Bool → ℕ → Selector H D → SelectorStatus × Selector H D
  ensure_capacity mem n s =
      if ltb n (length s.fds)
      then (selector_success, s)
      else if ltb items_max_size n
      then (selector_maxfd, s)
      else if not mem
      then (selector_enomem, s)
      else (selector_success, record s { fds = filled (next_capacity n) none s.fds })

  -- The structure that memset has blanked.
  abbrev pub empty_table : Selector H D
  empty_table = record { fds = []; max_fd = 0; master_r = λ _. false; master_w = λ _. false }

  -- NULL unless the status is success.
  abbrev pub unless_failed : SelectorStatus → Selector H D → Option (Selector H D)
  unless_failed selector_success s = some s
  unless_failed _ s = none

  unfoldable pub selector_new : Bool → ℕ → Option (Selector H D)
  selector_new mem initial_elements =
      let (status, s) = ensure_capacity mem initial_elements empty_table in unless_failed status s

  -- An item in its slot, with the descriptor sets updated.
  unfoldable pub write_item : ℕ → Item H D → ℕ → Selector H D → Selector H D
  write_item at item max s =
      items_update_fdset_for_fd item.fd item.interest
        (record s { fds = set s.fds at (some item); max_fd = max })

  -- The part of selector_register that writes the item.
  unfoldable pub put_item : ℕ → H → ℕ → D → Selector H D → Option (SelectorStatus × Selector H D)
  put_item fd handler interest d s = elim (get_elem? s.fds fd) [
    | none ↦ none
    | some (some _) ↦ some (selector_fdinuse, s)
    | some none ↦ some (
      selector_success,
      write_item fd (record { fd = fd; interest = interest; handler = handler; data_of = d })
          (if ltb s.max_fd fd then fd else s.max_fd) s,
    )
  ]

  -- `goto finally` unless the status is success.
  abbrev pub proceed :
      SelectorStatus
      → Selector H D
      → Option (SelectorStatus × Selector H D)
      → Option (SelectorStatus × Selector H D)
  proceed selector_success s next = next
  proceed failed s next = some (failed, s)

  unfoldable pub selector_register :
      Bool → ℤ → H → ℕ → D → Selector H D → Option (SelectorStatus × Selector H D)
  selector_register mem (negsuc _) handler interest d s = some (selector_iargs, s)
  selector_register mem (pos fd) handler interest d s =
      if leb items_max_size fd
      then some (selector_iargs, s)
      else if ltb (length s.fds) fd
      then (let (status, s') = ensure_capacity mem fd s in
          proceed status s' (put_item fd handler interest d s'))
      else put_item fd handler interest d s

  -- The interest is dropped, the slot freed and the maximum computed again.
  unfoldable pub clear_item : ℕ → Item H D → Selector H D → Selector H D
  clear_item at item s =
      let cleared = record (items_update_fdset_for_fd item.fd 0 s) { fds = set s.fds at none } in
      record cleared { max_fd = items_max_fd cleared }

  -- `handle_close` is what the handler of an item does with the world when the item is removed; the
  -- program's own leave the selector alone.
  unfoldable pub selector_unregister_fd :
      {W : Type 0}
      → (handle_close : Item H D → W → W) → ℤ
      → W
      → Selector H D
      → Option (SelectorStatus × (W × Selector H D))
  selector_unregister_fd handle_close (negsuc _) w s = some (selector_iargs, (w, s))
  selector_unregister_fd handle_close (pos fd) w s =
      if leb items_max_size fd then some (selector_iargs, (w, s)) else elim (get_elem? s.fds fd) [
        | none ↦ none
        | some none ↦ some (selector_iargs, (w, s))
        | some (some item) ↦ some (selector_success, (handle_close item w, clear_item fd item s))
      ]

  unfoldable pub selector_set_interest :
      ℤ → ℕ → Selector H D → Option (SelectorStatus × Selector H D)
  selector_set_interest (negsuc _) i s = some (selector_iargs, s)
  selector_set_interest (pos fd) i s =
      if leb items_max_size fd then some (selector_iargs, s) else elim (get_elem? s.fds fd) [
        | none ↦ none
        | some none ↦ some (selector_iargs, s)
        | some (some item) ↦
            some (selector_success, write_item fd (record item { interest = i }) s.max_fd s)
      ]
