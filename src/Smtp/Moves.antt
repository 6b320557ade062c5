-- ===== src/Smtp/Moves.antt =====
-- Which state of the protocol can follow which.
use smtp_protos.Prelude.{◌≡◌, ◌⊎◌, some, arith, Bool, true, false}
use smtp_protos.Process.{
  SmtpState, ehlo, from, to, data_cmd, body, done, xauth, xfrom, xget, xtran, xquit, error, Session,
  Turn, sprintf, is_valid,
}
use smtp_protos.Process.Anytime.{handle_reset, handle_quit, handle_noop, handle_xquit}
use smtp_protos.Process.Mail.{handle_helo, handle_from, handle_to, handle_data, handle_body}
use smtp_protos.Process.Admin.{Directory, handle_xauth, handle_xfrom, handle_xget, handle_xtran}
use smtp_protos.Smtp.{SocketState, anytime, run_handler, request_process}
use smtp_protos.Smtp.Inversion.{
  Outcome, quit, any_state, in_sequence, process-Outcome, send_reply_lem, begin, entering,
}

-- The states that the handler of a state can return.
abbrev pub may_move : SmtpState → SmtpState → Bool
may_move ehlo ehlo = true
may_move ehlo from = true
may_move from from = true
may_move from to = true
may_move from xfrom = true
may_move to to = true
may_move to data_cmd = true
may_move data_cmd data_cmd = true
may_move data_cmd body = true
may_move body ehlo = true
may_move xauth from = true
may_move xauth xfrom = true
may_move xfrom xfrom = true
may_move xfrom xget = true
may_move xget xget = true
may_move xget xfrom = true
may_move xtran xfrom = true
may_move _ _ = false

helo_moves :
    (t : Turn) {t' : Turn} {st : SmtpState}
    → handle_helo t ≡ some (t', st)
    → may_move ehlo st ≡ true
unfolding handle_helo sprintf
helo_moves t h = ground arith

module _ (dir : Directory) (t : Turn) {t' : Turn} {st : SmtpState} where
  xauth_moves : handle_xauth dir t ≡ some (t', st) → may_move xauth st ≡ true
  unfolding handle_xauth is_valid sprintf
  xauth_moves h = ground arith

  xtran_moves : handle_xtran dir t ≡ some (t', st) → may_move xtran st ≡ true
  unfolding handle_xtran is_valid sprintf
  xtran_moves h = ground arith

  xfrom_moves : handle_xfrom dir t ≡ some (t', st) → may_move xfrom st ≡ true
  unfolding handle_xfrom is_valid sprintf
  xfrom_moves h = ground arith

  xget_moves : handle_xget dir t ≡ some (t', st) → may_move xget st ≡ true
  unfolding handle_xget is_valid sprintf
  xget_moves h = ground arith

  from_moves : handle_from (handle_xauth dir) t ≡ some (t', st) → may_move from st ≡ true
  unfolding handle_from is_valid sprintf
  from_moves h = ground (arith, xauth_moves)

to_moves :
    (t : Turn) {t' : Turn} {st : SmtpState} → handle_to t ≡ some (t', st) → may_move to st ≡ true
unfolding handle_to is_valid sprintf
to_moves t h = ground arith

data_moves :
    (t : Turn) {t' : Turn} {st : SmtpState}
    → handle_data t ≡ some (t', st)
    → may_move data_cmd st ≡ true
unfolding handle_data sprintf
data_moves t h = ground arith

body_moves :
    (t : Turn) {t' : Turn} {st : SmtpState}
    → handle_body t ≡ some (t', st)
    → may_move body st ≡ true
unfolding handle_body sprintf
body_moves t h = ground arith

-- A handler only gives a state that may follow the state that it was chosen by.
pub handler_moves :
    (dir : Directory) (st : SmtpState) (t : Turn) {t' : Turn} {next : SmtpState}
    → run_handler dir st t ≡ some (t', next)
    → may_move st next ≡ true
unfolding run_handler
handler_moves dir ehlo t h = helo_moves t h
handler_moves dir from t h = from_moves dir t h
handler_moves dir to t h = to_moves t h
handler_moves dir data_cmd t h = data_moves t h
handler_moves dir body t h = body_moves t h
handler_moves dir xauth t h = xauth_moves dir t h
handler_moves dir xfrom t h = xfrom_moves dir t h
handler_moves dir xget t h = xget_moves dir t h
handler_moves dir xtran t h = xtran_moves dir t h
handler_moves dir done t h = cc
handler_moves dir xquit t h = cc
handler_moves dir error t h = cc

-- The commands of every state keep the request, and leave the state alone or make it `from`.
pub anytime_moves :
    (t : Turn) {q o : Bool} {t' : Turn}
    → anytime t ≡ some (q, o, t')
    → (t'.session.request_parser ≡ t.session.request_parser)
      × ((t'.session.state ≡ t.session.state) ⊎ (t'.session.state ≡ from))
unfolding anytime handle_noop handle_quit handle_reset handle_xquit sprintf
anytime_moves t h = ground arith

-- A command leaves the session in the state that it was in, in `from`, or in a state that may
-- follow its state.
pub process_moves :
    (dir : Directory) (s : Session) (transform : Bool) {sock : SocketState} {s' : Session}
    {transform' : Bool}
    → request_process dir s transform ≡ some (sock, s', transform')
    → (s'.state ≡ s.state) ⊎ ((s'.state ≡ from) ⊎ (may_move s.state s'.state ≡ true))
process_moves dir s transform h = outcome_moves (process-Outcome dir s transform h)
  where
    outcome_moves :
        {sock : SocketState} {s' : Session} {transform' : Bool}
        → Outcome dir s transform sock s' transform'
        → (s'.state ≡ s.state) ⊎ ((s'.state ≡ from) ⊎ (may_move s.state s'.state ≡ true))
    outcome_moves (quit o t e _ f _) = ground (arith, anytime_moves (begin s transform) e)
    outcome_moves (any_state t e f _ _) =
        ground (arith, anytime_moves (begin s transform) e, send_reply_lem t f)
    outcome_moves (in_sequence t u next e k f _ _) =
        ground (arith, handler_moves dir s.state t k, send_reply_lem (entering u next) f)
