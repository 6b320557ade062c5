-- ===== src/Smtp/Tests.antt =====
-- The theorems on smtp.c at concrete sessions.
use smtp_protos.Prelude.{
  ℕ, ◌≡◌, ◌⊎◌, List, [], none, some, true, false, refl, filled, replicate, codes,
}
use smtp_protos.Process.{from, xfrom, Session, sprintf, is_valid}
use smtp_protos.Process.Replies.{auth_msg, render}
use smtp_protos.CString.{strcasecmp_eq}
use smtp_protos.Process.Anytime.{handle_reset, handle_quit, handle_noop, handle_xquit}
use smtp_protos.Process.Mail.{handle_from}
use smtp_protos.Process.Admin.{Directory, handle_xauth}
use smtp_protos.Smtp.{
  request_write, anytime, sequential, run_handler, handlers_table, send_reply, request_process,
}
use smtp_protos.Request.{request_done}
use smtp_protos.Buffer.{Buffer, receive, buffer_write_ptr}
use smtp_protos.Smtp.Moves.{may_move, process_moves}
use smtp_protos.Smtp.Access.{process_needs_password}
use smtp_protos.CString.{c_str, strcmp_eq}
use smtp_protos.Prelude.{pos}
use smtp_protos.Registry.{AccessRegistry, authenticate}
use smtp_protos.Smtp.Password.{registry_directory, process_needs_the_password}

-- A registry with one password and no mails.
abbrev directory : Directory
directory = record {
  authenticate = λ a. strcasecmp_eq a (codes "pw");
  is_user = λ _. false;
  convert_and_validate_date = λ _. none;
  print_mails = λ _. none;
  print_mails_by_day = λ _ _. none;
}

abbrev space : Buffer
space = record { mem = replicate 40 0; limit = 40; read = 0; write = 0 }

-- A session in the state `from` that has read a command.
abbrev asking : List ℕ → List ℕ → Session
asking v a = record {
  state = from;
  request_parser = record {
    request = record { verb = v; arg = a; text = [] };
    state = request_done;
    i = 0;
  };
  mail_from = [];
  rcpt_to = [];
  rcpt_qty = 0;
  text = [];
  user = [];
  is_body = false;
  read_buffer = space;
  write_buffer = space;
}

abbrev granted : Session
granted = record (asking (codes "xauth") (codes "pw")) {
  state = xfrom;
  write_buffer = record space { mem = filled 40 0 (render auth_msg); write = 22 };
}

granted_runs :
    request_process directory (asking (codes "xauth") (codes "pw")) true
    ≡ some (request_write, granted, true)
unfolding request_process buffer_write_ptr anytime handle_noop handle_quit handle_reset handle_xquit
    sequential run_handler handlers_table handle_from handle_xauth is_valid strcasecmp_eq sprintf
    render send_reply receive replicate filled
granted_runs = refl

process_moves_example : (xfrom ≡ from) ⊎ ((xfrom ≡ from) ⊎ (may_move from xfrom ≡ true))
process_moves_example =
    process_moves directory (asking (codes "xauth") (codes "pw")) true granted_runs

process_needs_password_example :
    (strcasecmp_eq (codes "xauth") (codes "XAUTH") ≡ true)
    × (directory.authenticate (codes "pw") ≡ true)
process_needs_password_example =
    process_needs_password directory (asking (codes "xauth") (codes "pw")) true granted_runs refl
      refl

-- The same with the registry and its password.
abbrev no_mails : AccessRegistry
no_mails = record { mails_count = 0; users = []; by_name = []; by_time = [] }

abbrev real : Directory
real =
    registry_directory (λ _. []) (λ _. record { tm_year = pos 0; tm_mon = 0; tm_mday = 1 })
      (λ _. none) (λ d m y. d) no_mails

abbrev granted_real : Session
granted_real = record (asking (codes "xauth") (codes "password")) {
  state = xfrom;
  write_buffer = record space { mem = filled 40 0 (render auth_msg); write = 22 };
}

granted_real_runs :
    request_process real (asking (codes "xauth") (codes "password")) true
    ≡ some (request_write, granted_real, true)
unfolding request_process buffer_write_ptr anytime handle_noop handle_quit handle_reset handle_xquit
    sequential run_handler handlers_table handle_from handle_xauth is_valid strcasecmp_eq sprintf
    render send_reply receive replicate filled registry_directory authenticate strcmp_eq
granted_real_runs = refl

process_needs_the_password_example :
    (strcasecmp_eq (codes "xauth") (codes "XAUTH") ≡ true)
    × (c_str (codes "password") ≡ codes "password")
process_needs_the_password_example =
    process_needs_the_password (λ _. []) (λ _. record { tm_year = pos 0; tm_mon = 0; tm_mday = 1 })
      (λ _. none) (λ d m y. d) no_mails (asking (codes "xauth") (codes "password")) true
      granted_real_runs refl refl
