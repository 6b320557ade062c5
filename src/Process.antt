-- ===== src/Process.antt =====
-- src/lib/process.c, headers/states.h and the session's part of headers/smtp.h: what the commands
-- of the protocol do. A handler takes the turn and returns it with the next state; `none` is a fault.
pub mod Replies
pub mod Anytime
pub mod Mail
pub mod Admin
use smtp_protos.Prelude.{
  ℕ, zero, suc, ◌+◌, ◌-◌, ◌%◌, ◌^◌, ◌≤◌, ◌<◌, ◌≡◌, ◌≢◌, ◌↔◌, ◌⊎◌, List, [], ◌∷◌, ◌++◌, Option, none,
  some, arith, length, set, Bool, true, false, ltb, leb, ◌==◌, ◌&&◌, ◌||◌, not, length-set, Returns,
  Returns-some, get_or, length-replicate, take, drop, if◌then◌else◌, ◌>>=◌, ◌>>◌, Bool-cases,
  Option-cases, inl, inr, refl, Returns-bind, Returns-mono, All, All-mono, filled, replicate,
  length-filled, set-filled, set-filled_end, set-replicate, length-append, ap, sym, ◌∙◌, append-nil,
  append_assoc, store, codes, ℤ, pos, negsuc, map, assert, dec_lt, ℕ_discrete,
}
use smtp_protos.CString.{c_str, strcmp_eq, strcasecmp_eq, strchr, strrchr, strlen}
use smtp_protos.Request.{Request, RequestParser}
use smtp_protos.Buffer.{Buffer}
use Replies.{Reply, bad_command, bad_sequence, render}

-- smtp_state; `data_cmd` is DATA.
pub data SmtpState : Type 0 where
  ehlo from to data_cmd body done xauth xfrom xget xtran xquit error : SmtpState

abbrev pub mail_size : ℕ
mail_size = 255

-- LOCAL_USER_NAME_SIZE + 1 + DOMAIN_NAME_SIZE
abbrev pub address_size : ℕ
address_size = 320

-- MAX_RCPT, which is the length of a row of `rcpt_to`.
abbrev pub row_size : ℕ
row_size = 101

abbrev pub body_size : ℕ
body_size = 1024

abbrev pub response_size : ℕ
response_size = 1024

-- smtp_data, the fields that the commands use. `request_parser.request` is `request`, to which the
-- parser points; `text` is `data`; `rcpt_to` is the 320 rows of 101 bytes, one after the other.
pub record Session : Type 0 where
  pub state : SmtpState
  pub request_parser : RequestParser
  pub mail_from : List ℕ
  pub rcpt_to : List ℕ
  pub rcpt_qty : ℕ
  pub text : List ℕ
  pub user : List ℕ
  pub is_body : Bool
  pub read_buffer : Buffer
  pub write_buffer : Buffer

-- What a handler sees: the session, the global `config.transform`, and the array `msg` of the
-- caller, which holds nothing until a reply is printed into it.
pub record Turn : Type 0 where
  pub session : Session
  pub transform : Bool
  pub msg : Option Reply

abbrev pub Handler : Type 0
Handler = Turn → Option (Turn × SmtpState)

abbrev pub request_of : Turn → Request
request_of t = t.session.request_parser.request

-- sprintf(msg, ...): a reply that does not fit in `msg` is a fault.
unfoldable pub sprintf : Reply → Turn → Option Turn
sprintf r t =
    if ltb (length (render r)) response_size then some (record t { msg = some r }) else none

-- Print a reply and go to a state.
abbrev pub reply : Turn → Reply → SmtpState → Option (Turn × SmtpState)
reply t r st = do t' ← sprintf r t; some (t', st)

-- valid_commands
unfoldable pub valid_commands : List (List ℕ)
valid_commands =
    codes "HELO"
    ∷ codes "EHLO"
    ∷ codes "MAIL"
    ∷ codes "RCPT"
    ∷ codes "DATA"
    ∷ codes "XFROM"
    ∷ codes "XAUTH"
    ∷ codes "XGET"
    ∷ codes "XQUIT"
    ∷ codes "XTRAN"
    ∷ []

unfoldable pub is_command : List (List ℕ) → List ℕ → Bool
is_command [] verb = false
is_command (c ∷ cs) verb = strcasecmp_eq verb c || is_command cs verb

-- Whether the verb is the one that the state wants; a reply is printed where it is not.
unfoldable pub is_valid : List ℕ → Turn → Option (Bool × Turn)
is_valid state_verb t = if strcasecmp_eq (request_of t).verb state_verb then some (true, t) else (do
  t' ←
      sprintf (if is_command valid_commands (request_of t).verb then bad_sequence else bad_command)
        t
  some (false, t'))

-- The address between "<" at the start of the argument and ">" at its end, if it fits.
unfoldable pub extract_email : List ℕ → ℕ → Option (List ℕ)
extract_email arg email_len = elim (strchr arg b'<') [
  | none ↦ none
  | some start ↦ elim (strrchr arg b'>') [
    | none ↦ none
    | some end ↦
        if start == 0 && end == (strlen arg + 2 ^ 64 - 1) % 2 ^ 64
        then (let len = (end + 2 ^ 64 - start - 1) % 2 ^ 64 in
            if ltb len email_len then some (take len (drop (start + 1) (c_str arg))) else none)
        else none
  ]
]

-- Whether the address has a domain, and it is not the local one.
unfoldable pub is_foreign : List ℕ → Bool
is_foreign mail = elim (strchr mail b'@') [
  | none ↦ false
  | some i ↦ not (strcmp_eq (drop (i + 1) mail) (codes "local"))
]
