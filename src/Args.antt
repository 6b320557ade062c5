-- ===== src/Args.antt =====
-- src/lib/args.c: the command line. `strtol` is what strtol(3) gives, and the options are what getopt
-- gives: the character and its argument. Messages are left out.
pub mod Bounds
mod Tests
use smtp_protos.Prelude.{
  ℕ, zero, suc, ◌+◌, ◌-◌, ◌*◌, ◌/◌, ◌%◌, ◌^◌, ◌≤◌, ◌<◌, ◌≡◌, ◌≢◌, ◌↔◌, ◌⊎◌, List, [], ◌∷◌, ◌++◌,
  Option, none, some, arith, length, set, Bool, true, false, ltb, leb, ◌==◌, ◌&&◌, ◌||◌, not,
  length-set, length-take, Returns, Returns-some, get_or, length-replicate, take, drop,
  if◌then◌else◌, ◌>>=◌, ◌>>◌, Bool-cases, Option-cases, inl, inr, refl, Returns-bind, Returns-mono,
  All, All-mono, filled, replicate, length-filled, set-filled, set-filled_end, set-replicate,
  length-append, ap, sym, ◌∙◌, append-nil, append_assoc, store, codes, ℤ, pos, negsuc, map, assert,
  dec_lt, ℕ_discrete,
}
use smtp_protos.CString.{strchr}

-- MAX_ARGS_USERS
abbrev pub max_args_users : ℕ
max_args_users = 10

-- struct users; a name that was not given is NULL.
pub record User : Type 0 where
  pub name : Option (List ℕ)
  pub pass : Option (List ℕ)

-- struct socks5args
pub record Socks5Args : Type 0 where
  pub socks_addr : List ℕ
  pub socks_port : ℕ
  pub mng_addr : List ℕ
  pub mng_port : ℕ
  pub disectors_enabled : Bool
  pub users : List User
  pub nusers : ℕ

-- A call returns, or ends the program with a status.
pub data Ended (A : Type 0) : Type 0 where
  returned : A → Ended A
  exited : ℕ → Ended A

abbrev pub and_then : {A B : Type 0} → Ended A → (A → Option (Ended B)) → Option (Ended B)
and_then (returned a) f = f a
and_then (exited status) f = some (exited status)

-- The value, the offset of the first byte that is not of the number, and whether errno is ERANGE.
pub record Strtol : Type 0 where
  pub value : ℤ
  pub end_at : ℕ
  pub erange : Bool

-- LONG_MIN or LONG_MAX
abbrev pub is_limit : ℤ → Bool
is_limit (pos n) = n == 2 ^ 63 - 1
is_limit (negsuc n) = n == 2 ^ 63 - 1

-- The number, if it is an unsigned short.
abbrev pub to_port : ℤ → Ended ℕ
to_port (negsuc n) = exited 1
to_port (pos n) = if ltb 65535 n then exited 1 else returned n

module _ (strtol : List ℕ → Strtol) where
  unfoldable pub port : List ℕ → Ended ℕ
  port s =
      let r = strtol s in
      if r.end_at == 0 || not (get_or s r.end_at 0 == 0) || (is_limit r.value && r.erange)
      then exited 1
      else to_port r.value

  unfoldable pub user : List ℕ → Ended User
  user s = elim (strchr s 58) [
    | none ↦ exited 1
    | some i ↦ returned (record { name = some (take i s); pass = some (drop (suc i) s) })
  ]

  -- One round of the loop, on an option and its argument.
  unfoldable pub parse_option : ℕ → List ℕ → Socks5Args → Option (Ended Socks5Args)
  unfolding port user
  parse_option c optarg args =
      if c == b'h'
      then some (exited 1)
      else if c == b'l'
      then some (returned (record args { socks_addr = optarg }))
      else if c == b'L'
      then some (returned (record args { mng_addr = optarg }))
      else if c == b'N'
      then some (returned (record args { disectors_enabled = false }))
      else if c == b'p'
      then and_then (port optarg) (λ n. some (returned (record args { socks_port = n })))
      else if c == b'P'
      then and_then (port optarg) (λ n. some (returned (record args { mng_port = n })))
      else if c == b'u'
      then (if leb max_args_users args.nusers
          then some (exited 1)
          else and_then (user optarg) (λ u. do
            users ← store args.users args.nusers u
            some (returned (record args { users = users; nusers = args.nusers + 1 }))))
      else if c == b'v'
      then some (exited 0)
      else some (exited 1)

  unfoldable pub parse_options : List (ℕ × List ℕ) → Socks5Args → Option (Ended Socks5Args)
  parse_options [] args = some (returned args)
  parse_options ((c, optarg) ∷ opts) args = do
    r ← parse_option c optarg args
    and_then r (λ args'. parse_options opts args')

  abbrev pub no_user : User
  no_user = record { name = none; pass = none }

  abbrev pub default_args : Socks5Args
  default_args = record {
    socks_addr = codes "::";
    socks_port = 1080;
    mng_addr = codes "127.0.0.1";
    mng_port = 8080;
    disectors_enabled = true;
    users = replicate max_args_users no_user;
    nusers = 0;
  }

  -- `others` are the arguments that are no options.
  unfoldable pub parse_args : List (ℕ × List ℕ) → List (List ℕ) → Option (Ended Socks5Args)
  unfolding parse_options parse_option
  parse_args opts others = do
    r ← parse_options opts default_args
    and_then r (λ args. some (if length others == 0 then returned args else exited 1))
