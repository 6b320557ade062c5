-- ===== src/Logger/Run.antt =====
-- src/lib/logger.c: the events of the logger, one after another.
use smtp_protos.Prelude.{
  ℕ, ◌≡◌, List, [], ◌∷◌, ◌++◌, Option, none, some, Returns, take, ◌>>=◌, refl, Returns-bind,
  Returns-mono, All, ap, sym, ◌∙◌, append-nil, append_assoc, ℤ, pos, negsuc,
}
use smtp_protos.Selector.{Selector}
use smtp_protos.Logger.{Logger, fd_write_handler}
use smtp_protos.Logger.Print.{logf, log_line, logger_set_level}
use smtp_protos.Logger.Room.{IsValid, GivesSize, pending}
use smtp_protos.Logger.Flush.{InSync, Tracked, TakesWithin, Flushed, wanted, try_flush_lem}
use smtp_protos.Logger.Order.{logf_lem}

-- A message with what malloc and write answer, and its time, level and text; the file can be written;
-- a change of the level; and what the rest of the server does to the selector.
pub data Event (H D : Type 0) : Type 0 where
  message : (ℕ → Option (List ℕ)) → (ℕ → ℤ) → List ℕ → ℕ → List ℕ → Event H D
  writable : (ℕ → ℤ) → Event H D
  set_level : ℕ → Event H D
  elsewhere : (Selector H D → Selector H D) → Event H D

-- The bytes of front parts of the lines, one of each, in their order.
pub data Kept : List (List ℕ) → List ℕ → Type 0 where
  nothing : Kept [] []
  more :
      (line : List ℕ) (lines : List (List ℕ)) (n : ℕ) (kept bytes : List ℕ)
      → Kept lines kept
      → bytes ≡ take n line ++ kept
      → Kept (line ∷ lines) bytes

module _ {H D : Type 0} where
  unfoldable pub step : Event H D → Logger H D → Option (Logger H D)
  step (message malloc write stamp level text) l = logf malloc write stamp level text l
  step (writable write) l = fd_write_handler write l
  step (set_level k) l = some (logger_set_level k l)
  step (elsewhere f) l =
      some (record l { selector = elim (l.selector) [ none ↦ none | some s ↦ some (f s) ] })

  unfoldable pub run : List (Event H D) → Logger H D → Option (Logger H D)
  unfolding step
  run [] l = some l
  run (e ∷ events) l = step e l >>= run events

  -- The calls do what they are documented to do, and the rest of the server leaves the registration
  -- of the log file alone.
  abbrev pub Sound : ℤ → Event H D → Type 0
  Sound fd (message malloc write stamp level text) = GivesSize malloc × TakesWithin write
  Sound fd (writable write) = TakesWithin write
  Sound fd (set_level k) = Unit {0}
  Sound fd (elsewhere f) =
      (i : ℕ) (s : Selector H D) → Tracked fd (some s) i → Tracked fd (some (f s)) i

  -- The lines of the messages.
  abbrev pub lines_of : List (Event H D) → List (List ℕ)
  lines_of [] = []
  lines_of (message malloc write stamp level text ∷ events) =
      log_line stamp level text ∷ lines_of events
  lines_of (_ ∷ events) = lines_of events

  abbrev pub Went : List (Event H D) → Logger H D → Logger H D → Type 0
  Went events l l' =
      IsValid l'
      × InSync l'
      × ((kept : List ℕ) × Kept (lines_of events) kept
          × (l'.file ++ pending l' ≡ (l.file ++ pending l) ++ kept))

  Tracked-elsewhere :
      (f : Selector H D → Selector H D) (fd : ℤ) (s : Option (Selector H D)) (i : ℕ)
      → Sound fd (elsewhere f)
      → Tracked fd s i
      → Tracked fd (elim s [ none ↦ none | some t ↦ some (f t) ]) i
  Tracked-elsewhere f (negsuc n) s i k t = tt
  Tracked-elsewhere f (pos n) none i k t = t
  Tracked-elsewhere f (pos n) (some s) i k t = k i s t

  -- One event: `bytes` is what it puts behind what was there.
  abbrev After : Event H D → Logger H D → Logger H D → Type 0
  After e l l' =
      IsValid l'
      × InSync l'
      × (l'.log_file_fd ≡ l.log_file_fd)
      × ((bytes : List ℕ) × (l'.file ++ pending l' ≡ (l.file ++ pending l) ++ bytes)
          × ((events : List (Event H D)) (kept : List ℕ)
              → Kept (lines_of events) kept
              → Kept (lines_of (e ∷ events)) (bytes ++ kept)))

  step_lem :
      (e : Event H D) (l : Logger H D)
      → Sound l.log_file_fd e
      → IsValid l
      → InSync l
      → Returns (step e l) (After e l)
  unfolding step fd_write_handler logger_set_level
  step_lem (message malloc write stamp k text) l s v t =
      Returns-mono _ (After (message malloc write stamp k text) l) _
        (λ l' (n, a). (
          a.0,
          a.1,
          a.2,
          (
            take n (log_line stamp k text),
            a.3,
            λ events kept h.
                more (log_line stamp k text) (lines_of events) n kept
                  (take n (log_line stamp k text) ++ kept) h refl,
          ),
        ))
        (logf_lem malloc s.0 write s.1 stamp k text l v t)
  step_lem (writable write) l s v t =
      Returns-mono (Flushed l) (After (writable write) l) _
        (λ l' f. (
          f.valid,
          f.in_sync,
          ap (λ (x : Logger H D). x.log_file_fd) f.same,
          ([], f.order ∙ sym (append-nil (l.file ++ pending l)), λ events kept h. h),
        ))
        (try_flush_lem write (wanted l.buffer_length) l s v t)
  step_lem (set_level k) l s v t = (
    record { sized = v.sized; at_least = v.at_least; at_most = v.at_most; room = v.room },
    t,
    refl,
    ([], unfold pending in sym (append-nil (l.file ++ pending l)), λ events kept h. h),
  )
  step_lem (elsewhere f) l s v t = (
    record { sized = v.sized; at_least = v.at_least; at_most = v.at_most; room = v.room },
    Tracked-elsewhere f l.log_file_fd l.selector (wanted l.buffer_length) s t,
    refl,
    ([], unfold pending in sym (append-nil (l.file ++ pending l)), λ events kept h. h),
  )

  -- Whatever is logged and whatever the calls answer, while the rest of the server leaves the log
  -- file's registration alone: the logger returns, its buffer stays valid, the selector is asked for
  -- the file exactly while bytes wait, and what the file has taken, followed by what waits, is what
  -- they were together followed by a front part of each line, in the order of the messages.
  pub run_lem :
      (events : List (Event H D)) (l : Logger H D)
      → All (Sound l.log_file_fd) events
      → IsValid l
      → InSync l
      → Returns (run events l) (Went events l)
  unfolding run
  run_lem [] l s v t = (v, t, ([], nothing, sym (append-nil (l.file ++ pending l))))
  run_lem (e ∷ events) l s v t =
      Returns-bind (After e l) (Went (e ∷ events) l) (step e l) (run events)
        (λ l₁ a.
          let (bytes, order, keeps) = a.3 in
          Returns-mono (Went events l₁) (Went (e ∷ events) l) (run events l₁)
            (λ l' w.
              let (kept, k, o) = w.2 in
              (
                w.0,
                w.1,
                (
                  bytes ++ kept,
                  keeps events kept k,
                  o ∙ ap (λ ys. ys ++ kept) order ∙ append_assoc (l.file ++ pending l) bytes kept,
                ),
              ))
            (run_lem events l₁ (rw (a.2) s.1) a.0 a.1))
        (step_lem e l s.0 v t)
