-- ===== src/Args/Bounds.antt =====
-- src/lib/args.c: the arguments stay in their bounds.
use smtp_protos.Prelude.{
  ℕ, ◌+◌, ◌^◌, ◌≤◌, ◌<◌, ◌≡◌, List, [], ◌∷◌, Option, some, arith, length, Bool, true, false, ltb,
  leb, ◌==◌, ◌&&◌, ◌||◌, not, length-set, Returns, get_or, if◌then◌else◌, ◌>>=◌, Bool-cases,
  Option-cases, inl, inr, refl, Returns-bind, replicate, ap, ◌∙◌, store, ℤ, pos, negsuc,
}
use smtp_protos.Prelude.{store_lem}
use smtp_protos.CString.{strchr}
use smtp_protos.Args.{
  max_args_users, Socks5Args, Ended, returned, exited, and_then, Strtol, is_limit, to_port, port,
  user, parse_option, parse_options, default_args, parse_args,
}

-- The array of users has its length and is filled as far as `nusers`, and the ports are ports.
pub record IsValid (args : Socks5Args) : Type 0 where
  pub places : length args.users ≡ max_args_users
  pub filled_to : args.nusers ≤ max_args_users
  pub socks_small : args.socks_port < 2 ^ 16
  pub mng_small : args.mng_port < 2 ^ 16

-- What holds where a call returns.
abbrev pub Holds : {A : Type 0} → (A → Type 0) → Ended A → Type 0
Holds P (returned a) = P a
Holds P (exited status) = Unit

and_then_lem :
    {A B : Type 0} (P : A → Type 0) (Q : Ended B → Type 0) (r : Ended A) (f : A → Option (Ended B))
    → ((status : ℕ) → Q (exited status))
    → ((a : A) → P a → Returns (f a) Q)
    → Holds P r
    → Returns (and_then r f) Q
and_then_lem P Q (returned a) f q k h = k a h
and_then_lem P Q (exited status) f q k h = q status

-- What holds on both branches of a test.
if_lem :
    {A : Type 0} (P : A → Type 0) (b : Bool) (x y : Option A)
    → (b ≡ true → Returns x P)
    → (b ≡ false → Returns y P)
    → Returns (if b then x else y) P
if_lem P true x y h k = h refl
if_lem P false x y h k = k refl

to_port_lem : (v : ℤ) → Holds (λ n. n < 2 ^ 16) (to_port v)
to_port_lem (negsuc n) = tt
to_port_lem (pos n) = elim (Bool-cases (ltb 65535 n)) [
  | inl e ↦ rw e tt
  | inr e ↦ rw e (ground arith)
]

module _ (strtol : List ℕ → Strtol) where
  abbrev port_refused : List ℕ → Bool
  port_refused s =
      (strtol s).end_at == 0
      || not (get_or s (strtol s).end_at 0 == 0)
      || (is_limit (strtol s).value && (strtol s).erange)

  port_lem : (s : List ℕ) → Holds (λ n. n < 2 ^ 16) (port strtol s)
  unfolding port
  port_lem s = elim (Bool-cases (port_refused s)) [
    | inl e ↦ rw e tt
    | inr e ↦ rw e (to_port_lem (strtol s).value)
  ]

  -- A change of other fields, or to a port.
  kept :
      (args : Socks5Args)
      → IsValid args
      → (args' : Socks5Args) → args'.users ≡ args.users
      → args'.nusers ≡ args.nusers
      → args'.socks_port < 2 ^ 16
      → args'.mng_port < 2 ^ 16
      → IsValid args'
  kept args v args' e f g h = record {
    places = ap (λ us. length us) e ∙ v.places;
    filled_to = rw f v.filled_to;
    socks_small = g;
    mng_small = h;
  }

  user_lem : (s : List ℕ) → Holds (λ _. Unit {0}) (user strtol s)
  unfolding user
  user_lem s = elim (Option-cases (strchr s 58)) [
    | inl e ↦ rw (user, e) tt
    | inr (i, e) ↦ rw (user, e) tt
  ]

  add_user_lem :
      (optarg : List ℕ) (args : Socks5Args)
      → IsValid args
      → Returns
          (if leb max_args_users args.nusers
            then some (exited 1)
            else and_then (user strtol optarg) (λ u. do
              users ← store args.users args.nusers u
              some (returned (record args { users = users; nusers = args.nusers + 1 }))))
          (Holds IsValid)
  add_user_lem optarg args v =
      if_lem (Holds IsValid) (leb max_args_users args.nusers) _ _ (λ _. tt)
        (λ e.
          and_then_lem (λ _. Unit {0}) (Holds IsValid) (user strtol optarg) _ (λ _. tt)
            (λ u _.
              let room : args.nusers < length args.users = rw v.places (ground arith) in
              let next : args.nusers + 1 ≤ max_args_users = ground arith in
              rw (store_lem args.users args.nusers u room) (record {
                places = length-set args.users args.nusers u ∙ v.places;
                filled_to = next;
                socks_small = v.socks_small;
                mng_small = v.mng_small;
              }))
            (user_lem optarg))

  parse_option_lem :
      (c : ℕ) (optarg : List ℕ) (args : Socks5Args)
      → IsValid args
      → Returns (parse_option strtol c optarg args) (Holds IsValid)
  unfolding parse_option
  parse_option_lem c optarg args v =
      if_lem (Holds IsValid) (c == b'h') _ _ (λ _. tt)
        (λ _.
          if_lem (Holds IsValid) (c == b'l') _ _
            (λ _. kept args v _ refl refl v.socks_small v.mng_small)
            (λ _.
              if_lem (Holds IsValid) (c == b'L') _ _
                (λ _. kept args v _ refl refl v.socks_small v.mng_small)
                (λ _.
                  if_lem (Holds IsValid) (c == b'N') _ _
                    (λ _. kept args v _ refl refl v.socks_small v.mng_small)
                    (λ _.
                      if_lem (Holds IsValid) (c == b'p') _ _
                        (λ _.
                          and_then_lem (λ n. n < 2 ^ 16) (Holds IsValid) (port strtol optarg) _
                            (λ _. tt) (λ n h. kept args v _ refl refl h v.mng_small)
                            (port_lem optarg))
                        (λ _.
                          if_lem (Holds IsValid) (c == b'P') _ _
                            (λ _.
                              and_then_lem (λ n. n < 2 ^ 16) (Holds IsValid) (port strtol optarg) _
                                (λ _. tt) (λ n h. kept args v _ refl refl v.socks_small h)
                                (port_lem optarg))
                            (λ _.
                              if_lem (Holds IsValid) (c == b'u') _ _
                                (λ _. add_user_lem optarg args v)
                                (λ _.
                                  if_lem (Holds IsValid) (c == b'v') _ _ (λ _. tt) (λ _. tt))))))))

  parse_options_lem :
      (opts : List (ℕ × List ℕ)) (args : Socks5Args)
      → IsValid args
      → Returns (parse_options strtol opts args) (Holds IsValid)
  unfolding parse_options
  parse_options_lem [] args v = v
  parse_options_lem ((c, optarg) ∷ opts) args v =
      Returns-bind (Holds IsValid) (Holds IsValid) (parse_option strtol c optarg args) _
        (λ r h.
          and_then_lem IsValid (Holds IsValid) r _ (λ _. tt)
            (λ args' w. parse_options_lem opts args' w) h)
        (parse_option_lem c optarg args v)

  -- Whatever the command line, parse_args writes no user outside the array, and where it returns at
  -- most ten users are counted and the two ports have 16 bits.
  pub parse_args_lem :
      (opts : List (ℕ × List ℕ)) (others : List (List ℕ))
      → Returns (parse_args strtol opts others) (Holds IsValid)
  unfolding parse_args replicate
  parse_args_lem opts others =
      Returns-bind (Holds IsValid) (Holds IsValid) (parse_options strtol opts (default_args strtol))
        _
        (λ r h.
          and_then_lem IsValid (Holds IsValid) r _ (λ _. tt)
            (λ args w. elim (Bool-cases (length others == 0)) [ inl e ↦ rw e w | inr e ↦ rw e tt ])
            h)
        (parse_options_lem opts (default_args strtol) (record {
          places = refl;
          filled_to = omega arith;
          socks_small = omega arith;
          mng_small = omega arith;
        }))
