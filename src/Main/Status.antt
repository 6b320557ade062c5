-- ===== src/Main/Status.antt =====
-- src/main.c: how the program ends.
use smtp_protos.Prelude.{
  ℕ, ◌≡◌, ◌⊎◌, List, [], ◌∷◌, Option, none, some, false, ◌&&◌, Bool-cases, Option-cases, inl, inr,
  refl, codes, ℤ,
}
use smtp_protos.Prelude.{Within, Within-bind, Within-any}
use smtp_protos.CString.{strcmp_eq}
use smtp_protos.Args.{Strtol}
use smtp_protos.Selector.{
  Selector, Item, SelectorStatus, selector_success, selector_enomem, selector_maxfd, selector_iargs,
  selector_fdinuse, selector_io, selector_new,
}
use smtp_protos.Selector.Iteration.{FdHandlers, Selected}
use smtp_protos.Selector.Destroy.{selector_destroy}
use smtp_protos.Logger.{is_open}
use smtp_protos.Main.{
  SetUp, first_failure, set_up_calls, status_at_end, register_servers, serve, finish, servers_of,
  run_loop, after_registering, run_server, start, main,
}
use smtp_protos.Main.Arguments.{init_status, is_zero, Config, check_port, check_command}

-- No exit of main is a success.
abbrev pub IsFailure : ℕ → Type 0
IsFailure status = (status ≡ 1) ⊎ (status ≡ 2)

status_at_end-IsFailure : (ss : SelectorStatus) (m : List ℕ) → IsFailure (status_at_end ss (some m))
unfolding status_at_end
status_at_end-IsFailure selector_success m = inl refl
status_at_end-IsFailure selector_enomem m = inr refl
status_at_end-IsFailure selector_maxfd m = inr refl
status_at_end-IsFailure selector_iargs m = inr refl
status_at_end-IsFailure selector_fdinuse m = inr refl
status_at_end-IsFailure selector_io m = inr refl

-- Whatever the command line names, an accepted one installs no transformation program.
pub check_command_lem :
    (access : List ℕ → ℤ) (arg : List ℕ)
    → Within
        (check_command access arg)
        (λ config. (config.program ≡ none) × (config.transform ≡ false))
unfolding check_command init_status
check_command_lem access arg = elim (Bool-cases (strcmp_eq arg (codes "-"))) [
  | inl e ↦ rw (check_command, e) (refl, refl)
  | inr e ↦ elim (Bool-cases (is_zero (access arg))) [
    | inl f ↦ rw (check_command, e) (rw f (refl, refl))
    | inr f ↦ rw (check_command, e) (rw f tt)
  ]
]

module _ {H D W : Type 0} (hs : FdHandlers H D W) (handle_close : Item H D → W → W) where
  finish-IsFailure :
      (a : SetUp) (ss : SelectorStatus) (m : List ℕ) (selector : Option (Selector H D)) (w : W)
      → Within (finish hs handle_close a ss (some m) selector w) (λ (e, w'). IsFailure e.status)
  unfolding finish
  finish-IsFailure a ss m none w = status_at_end-IsFailure ss m
  finish-IsFailure a ss m (some s) w =
      Within-bind (λ _. Unit {0}) _ (selector_destroy handle_close w s) _
        (λ w' u. status_at_end-IsFailure ss m) (Within-any (selector_destroy handle_close w s))

  module _ (smtp monitor : H) (no_data : D) (init_log : Selector H D → Option (Selector H D)) where
    run_loop-IsFailure :
        (a : SetUp) (rounds : List Selected) (s : Selector H D) (w : W)
        → Within
            (run_loop hs handle_close smtp monitor no_data init_log a rounds s w)
            (λ (e, w'). IsFailure e.status)
    unfolding run_loop
    run_loop-IsFailure a rounds s w =
        Within-bind (λ _. Unit {0}) _ (init_log s) _
          (λ s' u.
            Within-bind (λ _. Unit {0}) _ (serve hs handle_close rounds s' w) _
              (λ (last, s'', w') v. finish-IsFailure a last _ (some s'') w')
              (Within-any (serve hs handle_close rounds s' w)))
          (Within-any (init_log s))

    after_registering-IsFailure :
        (a : SetUp) (rounds : List Selected) (ss : SelectorStatus) (err_msg : Option (List ℕ))
        (s : Selector H D) (w : W)
        → Within
            (after_registering hs handle_close smtp monitor no_data init_log a rounds ss err_msg s
              w)
            (λ (e, w'). IsFailure e.status)
    unfolding after_registering
    after_registering-IsFailure a rounds ss none s w = run_loop-IsFailure a rounds s w
    after_registering-IsFailure a rounds ss (some message) s w =
        finish-IsFailure a ss message (some s) w

    run_server-IsFailure :
        (a : SetUp) (rounds : List Selected) (s : Selector H D) (w : W)
        → Within
            (run_server hs handle_close smtp monitor no_data init_log a rounds s w)
            (λ (e, w'). IsFailure e.status)
    unfolding run_server
    run_server-IsFailure a rounds s w =
        Within-bind (λ _. Unit {0}) _ (register_servers no_data (servers_of smtp monitor a) s) _
          (λ (ss, err_msg, s') u. after_registering-IsFailure a rounds ss err_msg s' w)
          (Within-any (register_servers no_data (servers_of smtp monitor a) s))

    start-IsFailure :
        (a : SetUp) (rounds : List Selected) (w : W)
        → Within
            (start hs handle_close smtp monitor no_data init_log a rounds w)
            (λ (e, w'). IsFailure e.status)
    unfolding start
    start-IsFailure a rounds w =
        elim (Bool-cases (is_open a.server6 && is_open a.server4 && is_open a.monitor_server6)) [
          | inr e ↦ rw e tt
          | inl e ↦ rw e (elim (Bool-cases (is_open a.monitor_server4)) [
            | inr f ↦ rw f (finish-IsFailure a selector_success _ none w)
            | inl f ↦ rw f (elim (Bool-cases a.lingers) [
              | inr g ↦ rw (start, g) (inl refl)
              | inl g ↦
                  rw (start, g)
                    (elim (Option-cases (first_failure (set_up_calls a))) [
                      | inr (m, k) ↦ rw (start, k) (finish-IsFailure a selector_success m none w)
                      | inl k ↦
                          rw (start, k)
                            (elim (Option-cases (selector_new {H = H} {D = D} a.memory 1024)) [
                              | inl l ↦ rw (start, l) (finish-IsFailure a selector_success _ none w)
                              | inr (s, l) ↦ rw (start, l) (run_server-IsFailure a rounds s w)
                            ])
                    ])
            ])
          ])
        ]

    -- Whatever the command line, and whatever the calls answer, if main returns its status is 1 or 2,
    -- also where a signal has ended the loop.
    pub main-IsFailure :
        (strtol : List ℕ → Strtol) (access : List ℕ → ℤ) (a : SetUp) (rounds : List Selected)
        (install : ℕ → Config → W → W) (args : List (List ℕ)) (w : W)
        → Within
            (main hs handle_close smtp monitor no_data init_log strtol access a rounds install args
              w)
            (λ (e, w'). IsFailure e.status)
    unfolding main
    main-IsFailure strtol access a rounds install [] w = inl refl
    main-IsFailure strtol access a rounds install (p ∷ []) w = inl refl
    main-IsFailure strtol access a rounds install (p ∷ c ∷ []) w =
        elim (Option-cases (check_port strtol p)) [
          | inl e ↦ rw (main, e) (inl refl)
          | inr (port, e) ↦
              rw (main, e)
                (elim (Option-cases (check_command access c)) [
                  | inl f ↦ rw (main, f) (inl refl)
                  | inr (config, f) ↦
                      rw (main, f) (start-IsFailure a rounds (install port config w))
                ])
        ]
    main-IsFailure strtol access a rounds install (p ∷ c ∷ d ∷ more) w = inl refl
