-- ===== src/Selector/Calls.antt =====
-- src/lib/selector.c: the calls that a round makes of handlers that do not change the table.
use smtp_protos.Prelude.{
  ℕ, zero, suc, ◌+◌, ◌<◌, ◌≡◌, List, [], ◌∷◌, ◌++◌, Option, none, some, arith, length, Bool, ◌&&◌,
  Returns-some, if◌then◌else◌, refl, All, ap, sym, ◌∙◌, append-nil, append_assoc, dec_lt,
}
use smtp_protos.Prelude.{get_elem?, get_elem?-beyond, total}
use smtp_protos.Selector.{Selector, Item, selector_success, op_read, op_write}
use smtp_protos.Selector.Iteration.{FdHandlers, ready, selector_select}
use smtp_protos.Selector.Rounds.{Visits, Jobs, selector_select_lem}

known_result :
    {A B C D : Type 0} {m : Option (A × B × C × D)} {a a' : A} {b b' : B} {c c' : C} {d d' : D}
    → m ≡ some (a, b, c, d)
    → a ≡ a'
    → b ≡ b'
    → c ≡ c'
    → d ≡ d'
    → m ≡ some (a', b', c', d')
known_result e f g h k = cc

-- A call of a handler, with the descriptor and the data of its key.
pub data Call (H D : Type 0) : Type 0 where
  reading writing finishing : H → ℕ → D → Call H D

module _ {H D W : Type 0} (act : Call H D → W → W) where
  -- Handlers that act on the world and leave the table.
  abbrev pub acting : FdHandlers H D W
  acting = record {
    handle_read = λ h. some (λ fd d s w. some (s, act (reading h fd d) w));
    handle_write = λ h. some (λ fd d s w. some (s, act (writing h fd d) w));
    handle_block = λ h. some (λ fd d s w. some (s, act (finishing h fd d) w));
  }

  abbrev pub perform : List (Call H D) → W → W
  perform [] w = w
  perform (c ∷ cs) w = perform cs (act c w)

  perform-append :
      (cs ds : List (Call H D)) (w : W) → perform (cs ++ ds) w ≡ perform ds (perform cs w)
  perform-append [] ds w = refl
  perform-append (c ∷ cs) ds w = perform-append cs ds (act c w)

  abbrev pub calls_of : (Item H D → List (Call H D)) → Option (Option (Item H D)) → List (Call H D)
  calls_of calls none = []
  calls_of calls (some none) = []
  calls_of calls (some (some item)) = calls item

  abbrev pub read_calls : (ℕ → Bool) → Item H D → List (Call H D)
  read_calls slave_r item =
      if slave_r item.fd && op_read item.interest
      then reading item.handler item.fd item.data_of ∷ []
      else []

  abbrev pub write_calls : (ℕ → Bool) → ℕ → Item H D → List (Call H D)
  write_calls slave_w i item =
      if slave_w i && op_write item.interest
      then writing item.handler item.fd item.data_of ∷ []
      else []

  abbrev pub place_calls : (slave_r slave_w : ℕ → Bool) → ℕ → Item H D → List (Call H D)
  place_calls slave_r slave_w i item = read_calls slave_r item ++ write_calls slave_w i item

  -- The calls for the places below a number: for each, reading and then writing.
  abbrev pub calls_below : (slave_r slave_w : ℕ → Bool) → Selector H D → ℕ → List (Call H D)
  calls_below slave_r slave_w s zero = []
  calls_below slave_r slave_w s (suc i) =
      calls_below slave_r slave_w s i
      ++ calls_of (place_calls slave_r slave_w i) (get_elem? s.fds i)

  abbrev pub job_calls : Selector H D → List ℕ → List (Call H D)
  job_calls s [] = []
  job_calls s (fd ∷ jobs) =
      calls_of (λ item. finishing item.handler item.fd item.data_of ∷ []) (get_elem? s.fds fd)
      ++ job_calls s jobs

  module _ (slave_r slave_w : ℕ → Bool) (s₀ : Selector H D) (w₀ end : W) where
    abbrev below : ℕ → List (Call H D)
    below = calls_below slave_r slave_w s₀

    abbrev pub Before : ℕ → Selector H D → W → Type 0
    Before i s w = (s ≡ s₀) × (w ≡ perform (below i) w₀)

    abbrev pub Between : ℕ → Item H D → Selector H D → W → Type 0
    Between i item s w =
        (s ≡ s₀)
        × (get_elem? s₀.fds i ≡ some (some item))
        × (i < length s₀.fds)
        × (w ≡ perform (below i ++ read_calls slave_r item) w₀)

    -- What is left to do leads to the end.
    abbrev pub Left : List ℕ → Selector H D → W → Type 0
    Left jobs s w =
        (s ≡ s₀) × All (λ fd. fd < length s₀.fds) jobs × (perform (job_calls s₀ jobs) w ≡ end)

    place_free : (i : ℕ) → get_elem? s₀.fds i ≡ some none → below (suc i) ≡ below i
    place_free i e =
        ap (λ o. below i ++ calls_of (place_calls slave_r slave_w i) o) e ∙ append-nil (below i)

    place_used :
        (i : ℕ) (item : Item H D)
        → get_elem? s₀.fds i ≡ some (some item)
        → below (suc i) ≡ (below i ++ read_calls slave_r item) ++ write_calls slave_w i item
    place_used i item e =
        ap (λ o. below i ++ calls_of (place_calls slave_r slave_w i) o) e
        ∙ sym (append_assoc (below i) (read_calls slave_r item) (write_calls slave_w i item))

    same_place : (s : Selector H D) (i : ℕ) → s ≡ s₀ → get_elem? s.fds i ≡ get_elem? s₀.fds i
    same_place s i p = ap (λ t. get_elem? t.fds i) p

    used : (i : ℕ) (item : Item H D) → get_elem? s₀.fds i ≡ some (some item) → i < length s₀.fds
    used i item e = elim (dec_lt i (length s₀.fds)) [
      | yes h ↦ h
      | no n ↦ (let f = get_elem?-beyond s₀.fds i (omega arith) in cc)
    ]

    next :
        (cs : List (Call H D)) (c : Call H D) (w : W)
        → w ≡ perform cs w₀
        → act c w ≡ perform (cs ++ c ∷ []) w₀
    next cs c w q = rw (perform-append cs (c ∷ []) w₀) (ap (act c) q)

    pub acting-Visits :
        (n : ℕ) → n < length s₀.fds → Visits total acting Before Between Left slave_r slave_w n
    acting-Visits n h = record {
      there = λ i s w k (p, q). rw p (omega arith);
      still_there = λ i item s w (p, at, k, q). rw p k;
      empty = λ i s w (p, q) e. (p, rw (place_free i (sym (same_place s i p) ∙ e)) q);
      reads = λ i item s w (p, q) at e.
          let here = sym (same_place s i p) ∙ at in
          (
            p,
            here,
            used i item here,
            rw e (next (below i) (reading item.handler item.fd item.data_of) w q),
          );
      no_read = λ i item s w (p, q) at e.
          let here = sym (same_place s i p) ∙ at in
          (p, here, used i item here, rw e (rw (append-nil (below i)) q));
      gone = λ i item s w (p, at, k, q) e. let f = sym (same_place s i p) ∙ e in cc;
      writes = λ i item now s w (p, at, k, q) there e.
          let same : now ≡ item = (let f = sym (same_place s i p) ∙ there in cc) in
          (
            p,
            rw (same, place_used i item at)
                (rw (rw same at e) (
                  next (below i ++ read_calls slave_r item)
                    (writing item.handler item.fd item.data_of) w q)),
          );
      no_write = λ i item now s w (p, at, k, q) there e.
          let same : now ≡ item = (let f = sym (same_place s i p) ∙ there in cc) in
          (
            p,
            rw (place_used i item at)
                (rw (rw same at e) (rw (append-nil (below i ++ read_calls slave_r item)) q)),
          );
    }

    job_free :
        (fd : ℕ) (jobs : List ℕ)
        → get_elem? s₀.fds fd ≡ some none
        → job_calls s₀ (fd ∷ jobs) ≡ job_calls s₀ jobs
    job_free fd jobs e =
        ap (λ o. calls_of (λ x. finishing x.handler x.fd x.data_of ∷ []) o ++ job_calls s₀ jobs) e

    job_used :
        (fd : ℕ) (jobs : List ℕ) (item : Item H D)
        → get_elem? s₀.fds fd ≡ some (some item)
        → job_calls s₀ (fd ∷ jobs) ≡ finishing item.handler item.fd item.data_of ∷ job_calls s₀ jobs
    job_used fd jobs item e =
        ap (λ o. calls_of (λ x. finishing x.handler x.fd x.data_of ∷ []) o ++ job_calls s₀ jobs) e

    pub acting-Jobs : Jobs total acting Before Between Left
    acting-Jobs = record {
      known = λ fd jobs s w (p, h, q). rw p (h.0);
      dropped = λ fd jobs s w (p, h, q) e. (
        p,
        h.1,
        sym (ap (λ cs. perform cs w) (job_free fd jobs (sym (same_place s fd p) ∙ e))) ∙ q,
      );
      done = λ fd jobs item s w (p, h, q) e. (
        p,
        h.1,
        sym (ap (λ cs. perform cs w) (job_used fd jobs item (sym (same_place s fd p) ∙ e))) ∙ q,
      );
    }

  -- With handlers that leave the table as it is, a round with places for all its descriptors makes these
  -- calls and no others: for each place from 0 to the greatest descriptor in which an item stands, that
  -- of the handler for reading, if its descriptor is ready and the item asks for it, then that of the
  -- handler for writing, in the same way; then for each job in its order that of the handler for jobs, if
  -- an item stands in its place. It succeeds and no job is left.
  pub selector_select_calls :
      (slave_r slave_w : ℕ → Bool) (jobs : List ℕ) (s : Selector H D) (w : W)
      → s.max_fd < length s.fds
      → All (λ fd. fd < length s.fds) jobs
      → selector_select acting (ready slave_r slave_w) jobs s w
        ≡ some (
          selector_success,
          [],
          s,
          perform (calls_below slave_r slave_w s (s.max_fd + 1) ++ job_calls s jobs) w,
        )
  selector_select_calls slave_r slave_w jobs s w h k =
      let end = perform (calls_below slave_r slave_w s (s.max_fd + 1) ++ job_calls s jobs) w in
      let ((ss, left, s', w'), e, (ok, done, (same, _, q))) =
        Returns-some _ (selector_select acting (ready slave_r slave_w) jobs s w) (
          selector_select_lem total acting (Before slave_r slave_w s w end)
            (Between slave_r slave_w s w end) (Left slave_r slave_w s w end) (ready slave_r slave_w)
            jobs s w (acting-Jobs slave_r slave_w s w end)
            (
              acting-Visits slave_r slave_w s w end s.max_fd h,
              (refl, refl),
              (λ t v (p, q). (
                p,
                k,
                ap (perform (job_calls s jobs)) q
                    ∙ sym (
                        perform-append (calls_below slave_r slave_w s (s.max_fd + 1))
                          (job_calls s jobs) w),
              )),
            )) in
      known_result e ok done same q
