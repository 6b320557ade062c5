-- ===== src/Process/Replies.antt =====
-- The replies of src/lib/process.c, as the functions that print them name them.
use smtp_protos.Prelude.{List, ℕ, [], ◌++◌, codes, ◌∷◌}

pub data Reply : Type 0 where
  auth_msg bad_pwd bad_sequence bad_user bad_command welcome ok_data ok_body : Reply
  bad_syntax ok : List ℕ → Reply
  mail_from_unknown rcpt_to_unknown : List ℕ → Reply
  -- What print_mails and print_mails_by_day leave in the array.
  listing : List ℕ → Reply

-- The byte of a newline ends each text.
abbrev pub line : List ℕ → List ℕ
line s = s ++ 10 ∷ []

unfoldable pub render : Reply → List ℕ
render auth_msg = line (codes "ADMIN authenticated! ")
render bad_pwd = line (codes "[CODE] Incorrect Password! ")
render bad_sequence = line (codes "503 5.5.1 Error: Bad Command Sequence ")
render bad_user = line (codes "XFROM: Bad User ")
render bad_command = line (codes "502 5.5.2 Error: Command Not Recognized")
render (bad_syntax syntax) = codes "501 5.5.4 Syntax: " ++ (syntax ++ line (codes " "))
render (mail_from_unknown mail) =
    codes "550 5.1.1 <"
    ++ (mail ++ line (codes ">: Recipient address rejected: User unknown in local recipient table"))
render (rcpt_to_unknown mail) =
    codes "553 5.1.8 <" ++ (mail ++ line (codes ">: Sender address rejected: Domain not allowed"))
render (ok code) = codes "250 " ++ (code ++ line (codes " Ok"))
render welcome = line (codes "250 EHLO recieved")
render ok_data = line (codes "354 End data with <CR><LF>.<CR><LF> ")
render ok_body = line (codes "250 2.0.0 Ok: (queued as ?) EMAIL SENT ")
render (listing text) = text
