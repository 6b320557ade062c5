-- ===== src/Main/Arguments.antt =====
-- src/main.c: the arguments, with init_status and set_status of src/lib/smtp.c.
use smtp_protos.Prelude.{
  ℕ, List, Option, none, some, Bool, true, false, ltb, ◌==◌, ◌&&◌, ◌||◌, not, get_or, take,
  if◌then◌else◌, ◌>>=◌, codes, ℤ, pos, negsuc,
}
use smtp_protos.CString.{strcmp_eq, strlen, c_str}
use smtp_protos.Args.{Strtol, is_limit}

-- struct status
pub record Config : Type 0 where
  pub program : Option (List ℕ)
  pub transform : Bool

unfoldable pub init_status : Option (List ℕ) → Config
init_status none = record { program = none; transform = false }
init_status (some program) = record { program = some program; transform = true }

unfoldable pub set_status : Bool → Config → Config
set_status value config = record config { transform = value }

abbrev pub is_zero : ℤ → Bool
is_zero (pos n) = n == 0
is_zero (negsuc _) = false

-- A number that is an unsigned short.
abbrev pub as_port : ℤ → Option ℕ
as_port (pos n) = if ltb 65535 n then none else some n
as_port (negsuc _) = none

-- The port, unless the program ends.
unfoldable pub check_port : (List ℕ → Strtol) → List ℕ → Option ℕ
check_port strtol arg = do
  sl ←
      if strcmp_eq arg (codes "-")
      then some 2525
      else (let r = strtol arg in
          if r.end_at == 0 || not (get_or arg r.end_at 0 == 0) || is_limit r.value && r.erange
          then none
          else as_port r.value)
  if sl == 2526 then none else some sl

-- The transformation program. `c` is the result of a comparison, and the program ends if it holds; a
-- copy of a name that leaves no room for its NUL is cut.
unfoldable pub check_command : (access : List ℕ → ℤ) → List ℕ → Option Config
unfolding init_status
check_command access arg =
    let named = not (strcmp_eq arg (codes "-")) in
    let c = named && not (is_zero (access arg)) in
    if named && c
    then none
    else if c
    then (if ltb 256 (strlen arg) then none else some (init_status (some (take 256 (c_str arg)))))
    else some (init_status none)
