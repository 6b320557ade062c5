-- ===== src/Process/Anytime.antt =====
-- The commands of src/lib/process.c that are tried in every state. Each returns whether the verb
-- was its own.
use smtp_protos.Prelude.{
  Option, some, Bool, true, false, ◌==◌, ◌&&◌, not, get_or, if◌then◌else◌, ◌>>=◌, codes,
}
use smtp_protos.Process.{SmtpState, from, xfrom, xget, Turn, request_of, sprintf}
use smtp_protos.Process.Replies.{bad_syntax, ok}
use smtp_protos.CString.{strcasecmp_eq}

-- *arg != 0
abbrev pub has_argument : Turn → Bool
has_argument t = not (get_or (request_of t).arg 0 0 == 0)

unfoldable pub handle_reset : Turn → Option (Bool × Turn)
handle_reset t =
    if not (strcasecmp_eq (request_of t).verb (codes "RSET"))
    then some (false, t)
    else if has_argument t
    then (do t' ← sprintf (bad_syntax (codes "RSET")) t; some (true, t'))
    else (do
      t' ← sprintf (ok (codes "2.0.0")) t
      some (true, record t' { session = record (t'.session) { state = from } }))

unfoldable pub handle_quit : Turn → Option (Bool × Turn)
handle_quit t =
    if not (strcasecmp_eq (request_of t).verb (codes "QUIT"))
    then some (false, t)
    else if has_argument t
    then (do t' ← sprintf (bad_syntax (codes "QUIT")) t; some (true, t'))
    else (do
      t' ← sprintf (ok (codes "2.0.0")) t
      some (true, record t' { session = record (t'.session) { state = from } }))

unfoldable pub handle_noop : Turn → Option (Bool × Turn)
handle_noop t =
    if not (strcasecmp_eq (request_of t).verb (codes "NOOP"))
    then some (false, t)
    else (do t' ← sprintf (ok (codes "2.0.0")) t; some (true, t'))

-- The states in which XQUIT is a command.
abbrev pub may_xquit : SmtpState → Bool
may_xquit xfrom = true
may_xquit xget = true
may_xquit _ = false

unfoldable pub handle_xquit : Turn → Option (Bool × Turn)
handle_xquit t =
    if strcasecmp_eq (request_of t).verb (codes "XQUIT") && may_xquit t.session.state
    then (do
      t' ← sprintf (ok (codes "XQUIT!")) t
      some (true, record t' { session = record (t'.session) { state = from } }))
    else some (false, t)
