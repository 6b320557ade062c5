-- ===== src/Main.antt =====
-- src/main.c, behind its arguments (Arguments). `SetUp` is what the calls of the
-- set up give; the loop is given what pselect gives in each round, the last one being that in which
-- a signal sets `done`. No handler of the program makes a job. Messages are left out but for the one
-- that is printed at the end. A variable that is read and was never set is a fault.
pub mod Arguments
pub mod Status
pub mod Table
pub mod Serving
pub mod Logs
mod Tests
use smtp_protos.Prelude.{
  ℕ, zero, suc, ◌+◌, ◌-◌, ◌*◌, ◌/◌, ◌%◌, ◌^◌, ◌≤◌, ◌<◌, ◌≡◌, ◌≢◌, ◌↔◌, ◌⊎◌, List, [], ◌∷◌, ◌++◌,
  Option, none, some, arith, length, set, Bool, true, false, ltb, leb, ◌==◌, ◌&&◌, ◌||◌, not,
  length-set, length-take, Returns, Returns-some, get_or, length-replicate, take, drop,
  if◌then◌else◌, ◌>>=◌, ◌>>◌, Bool-cases, Option-cases, inl, inr, refl, Returns-bind, Returns-mono,
  All, All-mono, filled, replicate, length-filled, set-filled, set-filled_end, set-replicate,
  length-append, ap, sym, ◌∙◌, append-nil, append_assoc, store, codes, ℤ, pos, negsuc, map, assert,
  dec_lt, ℕ_discrete,
}
use smtp_protos.CString.{strcmp_eq, strlen, c_str}
use smtp_protos.Args.{Strtol, is_limit}
use smtp_protos.Selector.{
  Selector, Item, SelectorStatus, selector_success, selector_enomem, selector_maxfd, selector_iargs,
  selector_fdinuse, selector_io, selector_new, selector_register,
}
use smtp_protos.Selector.Iteration.{FdHandlers, Selected, selector_select}
use smtp_protos.Selector.Destroy.{selector_destroy}
use smtp_protos.Logger.{is_open, Logger}
use smtp_protos.Main.Arguments.{Config, check_port, check_command}
use smtp_protos.Logger.Setup.{logger_init}
use smtp_protos.Logger.Print.{logger_set_level}

-- What the calls of the set up give: descriptors, or whether a call succeeds.
pub record SetUp : Type 0 where
  pub server6 : ℤ
  pub server4 : ℤ
  pub monitor_server6 : ℤ
  pub monitor_server4 : ℤ
  pub lingers : Bool
  pub bind6 : Bool
  pub bind4 : Bool
  pub bind_monitor6 : Bool
  pub bind_monitor4 : Bool
  pub listen6 : Bool
  pub listen4 : Bool
  pub nio6 : Bool
  pub nio4 : Bool
  pub nio_monitor6 : Bool
  pub nio_monitor4 : Bool
  pub selector_inits : Bool
  pub memory : Bool

-- The first message whose call failed.
unfoldable pub first_failure : List (Bool × List ℕ) → Option (List ℕ)
first_failure [] = none
first_failure ((succeeds, message) ∷ calls) = if succeeds then first_failure calls else some message

-- The calls from the first bind to selector_init.
abbrev pub set_up_calls : SetUp → List (Bool × List ℕ)
set_up_calls a =
    (a.bind6, codes "unable to bind IPv6 socket")
    ∷ (a.bind4, codes "unable to bind IPv4 socket")
    ∷ (a.bind_monitor6, codes "unable to bind IPv6 monitoring socket")
    ∷ (a.bind_monitor4, codes "unable to bind IPv4 monitoring socket")
    ∷ (a.listen6, codes "unable to listen on IPv6 socket")
    ∷ (a.listen4, codes "unable to listen on IPv4 socket")
    ∷ (a.nio6, codes "getting server IPv6 socket flags")
    ∷ (a.nio4, codes "getting server IPv4 socket flags")
    ∷ (a.nio_monitor6, codes "getting server IPv6 monitoring socket flags")
    ∷ (a.nio_monitor4, codes "getting server IPv4 monitoring socket flags")
    ∷ (a.selector_inits, codes "initializing selector")
    ∷ []

abbrev pub is_ok : SelectorStatus → Bool
is_ok selector_success = true
is_ok _ = false

-- From `finally` on: the status that is returned.
unfoldable pub status_at_end : SelectorStatus → Option (List ℕ) → ℕ
status_at_end ss err_msg = if not (is_ok ss) then 2 else elim err_msg [ some _ ↦ 1 | none ↦ 0 ]

-- The two calls of logger_init with the calls of logger_set_level: the first has no selector yet, so
-- that it opens nothing. The level is LOG_DEBUG.
unfoldable pub init_logs :
    {H D : Type 0}
    → (List ℕ → ℤ)
    → List ℕ
    → Bool
    → H
    → D
    → (ℕ → Option (List ℕ))
    → Logger H D
    → Selector H D
    → Option (Logger H D)
init_logs open_file day mem log_handler no_data malloc l s = do
  (_, l₁) ← logger_init open_file day mem log_handler no_data malloc none (some []) false l
  (_, l₂) ←
      logger_init open_file day mem log_handler no_data malloc (some s) (some []) false
        (logger_set_level 0 l₁)
  some (logger_set_level 0 l₂)

-- The table after the calls for the log, which the logger has by its pointer.
unfoldable pub log_table :
    {H D : Type 0}
    → (List ℕ → ℤ)
    → List ℕ
    → Bool
    → H
    → D
    → (ℕ → Option (List ℕ))
    → Logger H D
    → Selector H D
    → Option (Selector H D)
unfolding init_logs
log_table open_file day mem log_handler no_data malloc l s = do
  l' ← init_logs open_file day mem log_handler no_data malloc l s
  some (elim l'.selector [ none ↦ s | some s' ↦ s' ])

-- OP_READ
abbrev pub reading : ℕ
reading = 1

-- What is registered, with the messages of a failure.
abbrev pub servers_of : {H : Type 0} → H → H → SetUp → List (ℤ × H × List ℕ)
servers_of smtp monitor a =
    (a.server6, smtp, codes "registering IPv6 fd")
    ∷ (a.server4, smtp, codes "registering IPv4 fd")
    ∷ (a.monitor_server6, monitor, codes "registering IPv6 monitoring fd")
    ∷ (a.monitor_server4, monitor, codes "registering IPv4 monitoring fd")
    ∷ []

-- The status and the descriptors of the servers that are closed.
pub record Exit : Type 0 where
  pub status : ℕ
  pub closed : List ℤ

-- The servers that are closed.
unfoldable pub only_open : List ℤ → List ℤ
only_open [] = []
only_open (fd ∷ fds) = if is_open fd then fd ∷ only_open fds else only_open fds

module _ {H D : Type 0} (no_data : D) where
  -- The registrations, until one fails: its status and message, and the table.
  unfoldable pub register_servers :
      List (ℤ × H × List ℕ)
      → Selector H D
      → Option (SelectorStatus × Option (List ℕ) × Selector H D)
  register_servers [] s = some (selector_success, none, s)
  register_servers ((fd, handler, message) ∷ servers) s = do
    (ss, s') ← selector_register true fd handler reading no_data s
    if is_ok ss then register_servers servers s' else some (ss, some message, s')

module _ {H D W : Type 0} (hs : FdHandlers H D W) (handle_close : Item H D → W → W) where
  -- The loop: the status of the last selector_select.
  unfoldable pub serve :
      List Selected → Selector H D → W → Option (SelectorStatus × Selector H D × W)
  serve [] s w = some (selector_success, s, w)
  serve (pselect ∷ rounds) s w = do
    (ss, _, s', w') ← selector_select hs pselect [] s w
    if is_ok ss then serve rounds s' w' else some (ss, s', w')

  -- From `finally` on.
  unfoldable pub finish :
      SetUp → SelectorStatus → Option (List ℕ) → Option (Selector H D) → W → Option (Exit × W)
  unfolding status_at_end only_open
  finish a ss err_msg selector w = do
    w' ← elim selector [ none ↦ some w | some s ↦ selector_destroy handle_close w s ]
    some (
      record {
        status = status_at_end ss err_msg;
        closed = only_open (a.server6 ∷ a.server4 ∷ a.monitor_server6 ∷ a.monitor_server4 ∷ []);
      },
      w',
    )

  module _ (smtp monitor : H) (no_data : D) (init_log : Selector H D → Option (Selector H D)) where
    -- The second call of logger_init, `init_log`, and the loop.
    unfoldable pub run_loop : SetUp → List Selected → Selector H D → W → Option (Exit × W)
    run_loop a rounds s w = do
      s' ← init_log s
      (last, s'', w') ← serve rounds s' w
      finish a last (some (if is_ok last then codes "closing" else codes "serving")) (some s'') w'

    -- The registrations have ended with that status, and a message where one has failed.
    unfoldable pub after_registering :
        SetUp
        → List Selected
        → SelectorStatus
        → Option (List ℕ)
        → Selector H D
        → W
        → Option (Exit × W)
    after_registering a rounds ss none s w = run_loop a rounds s w
    after_registering a rounds ss (some message) s w = finish a ss (some message) (some s) w

    -- With a table: the registrations and the loop.
    unfoldable pub run_server : SetUp → List Selected → Selector H D → W → Option (Exit × W)
    run_server a rounds s w = do
      (ss, err_msg, s') ← register_servers no_data (servers_of smtp monitor a) s
      after_registering a rounds ss err_msg s' w

    -- From the first socket on. If one of the first three cannot be made, the others were never set
    -- when they are closed; if SO_LINGER cannot be set nothing is closed.
    unfoldable pub start : SetUp → List Selected → W → Option (Exit × W)
    start a rounds w =
        if not (is_open a.server6 && is_open a.server4 && is_open a.monitor_server6)
        then none
        else if not (is_open a.monitor_server4)
        then finish a selector_success (some (codes "unable to create IPv4 socket")) none w
        else if not a.lingers
        then some (record { status = 1; closed = [] }, w)
        else elim (first_failure (set_up_calls a)) [
          | some message ↦ finish a selector_success (some message) none w
          | none ↦ elim (selector_new a.memory 1024) [
            | none ↦ finish a selector_success (some (codes "unable to create selector")) none w
            | some s ↦ run_server a rounds s w
          ]
        ]

    -- The arguments without the program's name; `install` puts the configuration into the world.
    unfoldable pub main :
        (List ℕ → Strtol)
        → (access : List ℕ → ℤ) → SetUp
        → List Selected
        → (install : ℕ → Config → W → W) → List (List ℕ)
        → W
        → Option (Exit × W)
    main strtol access a rounds install (port_arg ∷ command_arg ∷ []) w =
        elim (check_port strtol port_arg) [
          | none ↦ some (record { status = 1; closed = [] }, w)
          | some port ↦ elim (check_command access command_arg) [
            | none ↦ some (record { status = 1; closed = [] }, w)
            | some config ↦ start a rounds (install port config w)
          ]
        ]
    main strtol access a rounds install _ w = some (record { status = 1; closed = [] }, w)
