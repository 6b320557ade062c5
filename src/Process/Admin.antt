-- ===== src/Process/Admin.antt =====
-- The administrator's commands of src/lib/process.c, over the registry of mails, whose functions
-- (src/lib/access_registry.c) are the parameter `Directory`.
use smtp_protos.Prelude.{
  ℕ, List, Option, none, some, Bool, true, false, ◌==◌, not, get_or, if◌then◌else◌, ◌>>=◌,
  replicate, codes, ℤ,
}
use smtp_protos.Process.{
  from, xfrom, xget, Turn, Handler, request_of, sprintf, reply, is_valid, address_size,
}
use smtp_protos.Process.Replies.{auth_msg, bad_pwd, bad_user, bad_syntax, ok, listing}
use smtp_protos.CString.{c_str, strcasecmp_eq, strcpy}

-- What process.c calls of access_registry.c; `none` of a listing is a fault.
pub record Directory : Type 0 where
  pub authenticate : List ℕ → Bool
  pub is_user : List ℕ → Bool
  pub convert_and_validate_date : List ℕ → Option ℤ
  pub print_mails : List ℕ → Option (List ℕ)
  pub print_mails_by_day : ℤ → List ℕ → Option (List ℕ)

module _ (dir : Directory) where
  open dir use {authenticate, is_user, convert_and_validate_date, print_mails, print_mails_by_day}

  -- `return true` without an argument is the state numbered 1, FROM.
  unfoldable pub handle_xauth : Handler
  handle_xauth t = do
    (valid, t') ← is_valid (codes "XAUTH") t
    if not valid
        then some (t', from)
        else if get_or (request_of t').arg 0 0 == 0
        then reply t' (bad_syntax (codes "AUTH <password>")) from
        else if not (authenticate (request_of t').arg)
        then reply t' bad_pwd from
        else reply t' auth_msg xfrom

  -- With an argument that is neither OFF nor ON nothing is printed.
  unfoldable pub handle_xtran : Handler
  handle_xtran t = do
    (valid, t') ← is_valid (codes "XTRAN") t
    if not valid then some (t', xfrom) else (do
      t₁ ←
          (if strcasecmp_eq (request_of t').arg (codes "OFF")
            then (do u ← sprintf (ok (codes "XTRAN OFF")) t'; some (record u { transform = false }))
            else some t')
      t₂ ←
          (if strcasecmp_eq (request_of t₁).arg (codes "ON")
            then (do u ← sprintf (ok (codes "XTRAN ON")) t₁; some (record u { transform = true }))
            else some t₁)
      some (t₂, xfrom))

  unfoldable pub handle_xfrom : Handler
  unfolding handle_xtran
  handle_xfrom t = if strcasecmp_eq (request_of t).verb (codes "XTRAN") then handle_xtran t else (do
    (valid, t') ← is_valid (codes "XFROM") t
    if not valid
        then some (t', xfrom)
        else if not (is_user (request_of t').arg)
        then reply t' bad_user xfrom
        else (do
          user' ← strcpy t'.session.user 0 (c_str (request_of t').arg)
          reply (record t' { session = record (t'.session) { user = user' } }) (ok (codes "XFROM!"))
              xget))

  -- memset(&data->user, 0, sizeof(data->user))
  abbrev pub forget_user : Turn → Turn
  forget_user t = record t { session = record (t.session) { user = replicate address_size 0 } }

  -- A listing is cut to the array by the function that prints it.
  unfoldable pub handle_xget : Handler
  unfolding handle_xfrom
  handle_xget t = if strcasecmp_eq (request_of t).verb (codes "XFROM") then handle_xfrom t else (do
    (valid, t') ← is_valid (codes "XGET") t
    if not valid
        then some (t', xget)
        else if strcasecmp_eq (request_of t').arg (codes "ALL")
        then (do
          text ← print_mails t'.session.user
          u ← sprintf (listing text) t'
          some (forget_user u, xget))
        else elim (convert_and_validate_date (request_of t').arg) [
          | some time ↦ do
            text ← print_mails_by_day time t'.session.user
            u ← sprintf (listing text) t'
            some (forget_user u, xget)
          | none ↦ reply t' (bad_syntax (codes "XGET <date> | XGET ALL")) xget
        ])
