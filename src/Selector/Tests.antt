-- ===== src/Selector/Tests.antt =====
-- Runs of src/lib/selector.c.
use smtp_protos.Prelude.{
  ap, All, Bool, ◌++◌, ℕ, zero, suc, ◌<◌, ◌≡◌, ◌↔◌, [], ◌∷◌, none, some, arith, length, true, false,
  Returns, refl, filled, replicate, pos,
}
use smtp_protos.Prelude.{get_elem?, List, ◌==◌}
use smtp_protos.Selector.{
  write_item, items_update_fdset_for_fd, Selector, Item, selector_success, selector_new,
  selector_register, selector_unregister_fd, items_max_size, ensure_capacity, next_capacity,
  count_bits,
}
use smtp_protos.Selector.Table.{IsValid, write_item-IsValid}
use smtp_protos.Selector.Register.{
  selector_register-IsValid, selector_register_fault_iff, selector_new-IsValid,
}
use smtp_protos.Selector.Unregister.{selector_unregister_fd-IsValid}
use smtp_protos.Prelude.{total}
use smtp_protos.Selector.Iteration.{ready, selector_select}
use smtp_protos.Selector.Rounds.{selector_select_lem}
use smtp_protos.Selector.Calls.{
  Call, reading, finishing, acting, perform, calls_below, job_calls, Before, Between, Left,
  acting-Visits, acting-Jobs, selector_select_calls,
}
use smtp_protos.Selector.Destroy.{selector_destroy, close_each, used_items, selector_destroy_lem}

-- A table of nine slots, as selector_new makes it for four descriptors.
abbrev nine : Selector ℕ ℕ
nine = record {
  fds = none ∷ none ∷ none ∷ none ∷ none ∷ none ∷ none ∷ none ∷ none ∷ [];
  max_fd = 0;
  master_r = λ _. false;
  master_w = λ _. false;
}

nine_new : selector_new true 4 ≡ some nine
unfolding selector_new ensure_capacity next_capacity count_bits filled replicate
nine_new = refl

nine-IsValid : IsValid nine
nine-IsValid = (selector_new-IsValid true 4 nine nine_new).0

-- The same after descriptor 5 was registered for reading.
abbrev busy : Selector ℕ ℕ
busy = write_item 5 (record { fd = 5; interest = 1; handler = 7; data_of = 3 }) 5 nine

busy-IsValid : IsValid busy
busy-IsValid =
    write_item-IsValid 5 (record { fd = 5; interest = 1; handler = 7; data_of = 3 }) 5 nine
      nine-IsValid (omega arith) (omega arith) (omega arith) refl

busy_length : 5 < length busy.fds
unfolding write_item items_update_fdset_for_fd
busy_length = omega arith

selector_register_fault_iff_example :
    (selector_register true (pos 9) 7 1 0 nine ≡ none)
    ↔ ((9 ≡ length nine.fds) × (9 < items_max_size))
selector_register_fault_iff_example = selector_register_fault_iff true 9 7 1 0 nine nine-IsValid

selector_register-IsValid_example :
    Returns (selector_register true (pos 5) 7 1 0 nine) (λ r. IsValid r.1)
selector_register-IsValid_example =
    selector_register-IsValid true 5 7 1 0 nine nine-IsValid (omega arith)

selector_unregister_fd-IsValid_example :
    Returns
      (selector_unregister_fd (λ _ w. suc w) (pos 5) 0 busy)
      (λ r. IsValid r.1.1 × (r.0 ≡ selector_success → get_elem? r.1.1.fds 5 ≡ some none))
selector_unregister_fd-IsValid_example =
    selector_unregister_fd-IsValid (λ _ w. suc w) 5 0 busy busy-IsValid busy_length

-- A table with one item, and a world that is the list of the calls.
abbrev single : Item ℕ ℕ
single = record { fd = 1; interest = 1; handler = 7; data_of = 3 }

abbrev pair : Selector ℕ ℕ
pair = record {
  fds = none ∷ some single ∷ [];
  max_fd = 1;
  master_r = λ i. i == 1;
  master_w = λ _. false;
}

pair_range :
    (j : ℕ) (item : Item ℕ ℕ) → get_elem? pair.fds j ≡ some (some item) → j < items_max_size
pair_range zero item e = omega arith
pair_range (suc zero) item e = omega arith
pair_range (suc (suc j)) item e = cc

selector_destroy_lem_example :
    selector_destroy (λ item w. item.fd ∷ w) [] pair
    ≡ some (close_each (λ item w. item.fd ∷ w) (used_items pair.fds) [])
selector_destroy_lem_example = selector_destroy_lem (λ item w. item.fd ∷ w) [] pair pair_range

-- The world is the list of the calls, the last one first.
abbrev note_call : Call ℕ ℕ → List (Call ℕ ℕ) → List (Call ℕ ℕ)
note_call c w = c ∷ w

abbrev all_ready : ℕ → Bool
all_ready i = true

-- The item is registered for reading only, and one job of it is done.
abbrev made : List (Call ℕ ℕ)
made = finishing 7 1 3 ∷ reading 7 1 3 ∷ []

calls_test :
    selector_select (acting note_call) (ready all_ready all_ready) (1 ∷ 0 ∷ []) pair []
    ≡ some (
      selector_success,
      [],
      pair,
      perform note_call
          (calls_below note_call all_ready all_ready pair 2
            ++ job_calls note_call pair (1 ∷ 0 ∷ []))
          [],
    )
calls_test =
    selector_select_calls note_call all_ready all_ready (1 ∷ 0 ∷ []) pair [] (omega arith)
      (omega arith, (omega arith, tt))

calls_made :
    perform note_call
      (calls_below note_call all_ready all_ready pair 2 ++ job_calls note_call pair (1 ∷ 0 ∷ []))
      []
    ≡ made
calls_made = refl

-- The calls that are to be made are made, from a table that stays.
selector_select_lem_example :
    Returns
      (selector_select (acting note_call) (ready all_ready all_ready) (1 ∷ 0 ∷ []) pair [])
      (λ r.
        (r.0 ≡ selector_success)
        × (r.1 ≡ [])
        × ((r.2 ≡ pair) × All (λ fd. fd < 2) [] × (r.3 ≡ made)))
selector_select_lem_example =
    selector_select_lem total (acting note_call) (Before note_call all_ready all_ready pair [] made)
      (Between note_call all_ready all_ready pair [] made)
      (Left note_call all_ready all_ready pair [] made) (ready all_ready all_ready) (1 ∷ 0 ∷ [])
      pair [] (acting-Jobs note_call all_ready all_ready pair [] made)
      (
        acting-Visits note_call all_ready all_ready pair [] made 1 (omega arith),
        (refl, refl),
        (λ t v (p, q). (
          p,
          (omega arith, (omega arith, tt)),
          ap (perform note_call (job_calls note_call pair (1 ∷ 0 ∷ []))) q,
        )),
      )
