-- ===== src/Smtp/Access.antt =====
-- Who gets to the administrator's commands.
use smtp_protos.Prelude.{◌≡◌, some, arith, Bool, true, false, codes}
use smtp_protos.Process.{
  SmtpState, ehlo, from, xauth, xfrom, xget, xtran, Session, Turn, request_of, sprintf, is_valid,
}
use smtp_protos.CString.{strcasecmp_eq}
use smtp_protos.Process.Mail.{handle_from}
use smtp_protos.Process.Admin.{Directory, handle_xauth}
use smtp_protos.Smtp.{SocketState, run_handler, request_process}
use smtp_protos.Smtp.Inversion.{
  Outcome, quit, any_state, in_sequence, process-Outcome, send_reply_lem, begin, entering,
}
use smtp_protos.Smtp.Moves.{handler_moves, anytime_moves}

-- The states that take administrator's commands.
abbrev pub is_admin : SmtpState → Bool
is_admin xfrom = true
is_admin xget = true
is_admin xtran = true
is_admin _ = false

xauth-is_admin :
    (dir : Directory) (t : Turn) {t' : Turn} {st : SmtpState}
    → handle_xauth dir t ≡ some (t', st)
    → is_admin st ≡ true
    → (strcasecmp_eq (request_of t).verb (codes "XAUTH") ≡ true)
      × (dir.authenticate (request_of t).arg ≡ true)
unfolding handle_xauth is_valid sprintf
xauth-is_admin dir t h a = ground arith

from-is_admin :
    (dir : Directory) (t : Turn) {t' : Turn} {st : SmtpState}
    → handle_from (handle_xauth dir) t ≡ some (t', st)
    → is_admin st ≡ true
    → (strcasecmp_eq (request_of t).verb (codes "XAUTH") ≡ true)
      × (dir.authenticate (request_of t).arg ≡ true)
unfolding handle_from is_valid sprintf
from-is_admin dir t {t'} {st} h a = ground (arith, xauth-is_admin dir t {t' = t'} {st = st})

-- Outside the administrator's states, a handler gives one only for XAUTH with the password.
handler-is_admin :
    (dir : Directory) (st : SmtpState) (t : Turn) {t' : Turn} {next : SmtpState}
    → run_handler dir st t ≡ some (t', next)
    → is_admin st ≡ false
    → is_admin next ≡ true
    → (strcasecmp_eq (request_of t).verb (codes "XAUTH") ≡ true)
      × (dir.authenticate (request_of t).arg ≡ true)
unfolding run_handler
handler-is_admin dir from t h n a = from-is_admin dir t h a
handler-is_admin dir xauth t h n a = xauth-is_admin dir t h a
handler-is_admin dir ehlo t h n a = ground (arith, handler_moves dir ehlo t h)
handler-is_admin dir st t h n a = ground (arith, handler_moves dir st t h)

-- A client becomes an administrator only by XAUTH, with an argument that the registry accepts as
-- the password.
pub process_needs_password :
    (dir : Directory) (s : Session) (transform : Bool) {sock : SocketState} {s' : Session}
    {transform' : Bool}
    → request_process dir s transform ≡ some (sock, s', transform')
    → is_admin s.state ≡ false
    → is_admin s'.state ≡ true
    → (strcasecmp_eq s.request_parser.request.verb (codes "XAUTH") ≡ true)
      × (dir.authenticate s.request_parser.request.arg ≡ true)
process_needs_password dir s transform h n = granted (process-Outcome dir s transform h)
  where
    granted :
        {sock : SocketState} {s' : Session} {transform' : Bool}
        → Outcome dir s transform sock s' transform'
        → is_admin s'.state ≡ true
        → (strcasecmp_eq s.request_parser.request.verb (codes "XAUTH") ≡ true)
          × (dir.authenticate s.request_parser.request.arg ≡ true)
    granted (quit o t e _ f _) a = absurd (ground (arith, anytime_moves (begin s transform) e))
    granted (any_state t e f _ _) a =
        absurd (ground (arith, anytime_moves (begin s transform) e, send_reply_lem t f))
    granted (in_sequence t u next e k f _ _) a = ground (
      arith,
      anytime_moves (begin s transform) e,
      handler-is_admin dir s.state t k n (ground (arith, send_reply_lem (entering u next) f)),
    )
