-- ===== src/Smtp/Password.antt =====
-- The registry of src/lib/access_registry.c behind the commands of
-- src/lib/process.c, under request_process of src/lib/smtp.c.
use smtp_protos.Prelude.{ℕ, ◌≡◌, List, Option, some, Bool, true, false, sym, codes, ℤ}
use smtp_protos.CString.{c_str, strcasecmp_eq, strcmp_eq_lem}
use smtp_protos.Process.{Session, response_size}
use smtp_protos.Process.Admin.{Directory}
use smtp_protos.Registry.{AccessRegistry, authenticate, is_user, super_secret_password}
use smtp_protos.Registry.Date.{convert_and_validate_date}
use smtp_protos.Registry.Print.{Tm, print_mails, print_mails_by_day}
use smtp_protos.Smtp.{SocketState, request_process}
use smtp_protos.Smtp.Access.{is_admin, process_needs_password}

module _ (decimal : ℤ → List ℕ) (localtime : ℤ → Tm) (sscanf : List ℕ → Option (ℤ × ℤ × ℤ))
    (mktime : ℤ → ℤ → ℤ → ℤ) where
  -- The functions of the registry that the commands call, with the array that they are given.
  unfoldable pub registry_directory : AccessRegistry → Directory
  registry_directory r = record {
    authenticate = authenticate;
    is_user = λ user. is_user user r;
    convert_and_validate_date = convert_and_validate_date sscanf mktime;
    print_mails = λ user. some (print_mails decimal response_size user r);
    print_mails_by_day = λ day user. print_mails_by_day decimal localtime response_size day user r;
  }

  -- With this registry, a client becomes an administrator only by XAUTH with the one password.
  pub process_needs_the_password :
      (r : AccessRegistry) (s : Session) (transform : Bool) {sock : SocketState} {s' : Session}
      {transform' : Bool}
      → request_process (registry_directory r) s transform ≡ some (sock, s', transform')
      → is_admin s.state ≡ false
      → is_admin s'.state ≡ true
      → (strcasecmp_eq s.request_parser.request.verb (codes "XAUTH") ≡ true)
        × (c_str s.request_parser.request.arg ≡ codes "password")
  unfolding registry_directory authenticate c_str
  process_needs_the_password r s transform h n a =
      let (verb, granted) = process_needs_password (registry_directory r) s transform h n a in
      (verb, sym (strcmp_eq_lem super_secret_password s.request_parser.request.arg granted))
