-- ===== src/Smtp/Inversion.antt =====
-- The ways in which `request_process` can succeed.
use smtp_protos.Prelude.{◌≡◌, none, some, arith, Bool, true, false, Option-cases, inl, inr}
use smtp_protos.Process.{SmtpState, Session, Turn}
use smtp_protos.Process.Admin.{Directory}
use smtp_protos.Smtp.{
  SocketState, request_write, request_finished, anytime, sequential, run_handler, send_reply,
  request_process,
}

-- The turn that a command begins with.
abbrev pub begin : Session → Bool → Turn
begin s transform = record { session = s; transform = transform; msg = none }

abbrev pub entering : Turn → SmtpState → Turn
entering t next = record t { session = record (t.session) { state = next } }

-- QUIT ended the session, or a command of any state was answered, or the handler of the state was.
pub data Outcome (dir : Directory) (s : Session) (transform : Bool) (sock : SocketState)
    (s' : Session) (transform' : Bool) : Type 0 where
  quit :
      (other : Bool) (t : Turn)
      → anytime (begin s transform) ≡ some (true, other, t)
      → sock ≡ request_finished
      → s' ≡ t.session
      → transform' ≡ t.transform
      → Outcome dir s transform sock s' transform'
  any_state :
      (t : Turn)
      → anytime (begin s transform) ≡ some (false, true, t)
      → send_reply t ≡ some s'
      → sock ≡ request_write
      → transform' ≡ t.transform
      → Outcome dir s transform sock s' transform'
  in_sequence :
      (t u : Turn) (next : SmtpState)
      → anytime (begin s transform) ≡ some (false, false, t)
      → run_handler dir s.state t ≡ some (u, next)
      → send_reply (entering u next) ≡ some s'
      → sock ≡ request_write
      → transform' ≡ u.transform
      → Outcome dir s transform sock s' transform'

module _ (dir : Directory) (s : Session) (transform : Bool) {sock : SocketState} {s' : Session}
    {transform' : Bool} where
  after_anytime :
      (q o : Bool) (t : Turn)
      → anytime (begin s transform) ≡ some (q, o, t)
      → request_process dir s transform ≡ some (sock, s', transform')
      → Outcome dir s transform sock s' transform'
  unfolding request_process sequential
  after_anytime true o t e h = quit o t e (ground arith) (ground arith) (ground arith)
  after_anytime false true t e h = any_state t e (ground arith) (ground arith) (ground arith)
  after_anytime false false t e h = elim (Option-cases (run_handler dir s.state t)) [
    | inl k ↦ absurd (ground arith)
    | inr (r, k) ↦ in_sequence t r.0 r.1 e k (ground arith) (ground arith) (ground arith)
  ]

  pub process-Outcome :
      request_process dir s transform ≡ some (sock, s', transform')
      → Outcome dir s transform sock s' transform'
  unfolding request_process
  process-Outcome h = elim (Option-cases (anytime (begin s transform))) [
    | inl e ↦ absurd (ground arith)
    | inr (r, e) ↦ after_anytime r.0 r.1 r.2 e h
  ]

-- Sending changes nothing of the session but its write buffer.
pub send_reply_lem :
    (t : Turn) {s' : Session}
    → send_reply t ≡ some s'
    → s' ≡ record (t.session) { write_buffer = s'.write_buffer }
unfolding send_reply
send_reply_lem t h = ground arith
