-- ===== src/Registry.antt =====
-- src/lib/access_registry.c: the mails that the administrator can list, the users, and dates.
-- A string that strdup has made is its bytes without the NUL. The two lists of mails, which share
-- their nodes, are two lists of the same entries, which nothing changes once they are there.
pub mod Date
pub mod Print
pub mod Inv
pub mod Listing
pub mod Mock
mod Tests
use smtp_protos.Prelude.{
  ℕ, zero, suc, ◌+◌, ◌-◌, ◌*◌, ◌/◌, ◌%◌, ◌^◌, ◌≤◌, ◌<◌, ◌≡◌, ◌≢◌, ◌↔◌, ◌⊎◌, List, [], ◌∷◌, ◌++◌,
  Option, none, some, arith, length, set, Bool, true, false, ltb, leb, ◌==◌, ◌&&◌, ◌||◌, not,
  length-set, Returns, Returns-some, get_or, length-replicate, take, drop, if◌then◌else◌, ◌>>=◌,
  ◌>>◌, Bool-cases, Option-cases, inl, inr, refl, Returns-bind, Returns-mono, All, All-mono, filled,
  replicate, length-filled, set-filled, set-filled_end, set-replicate, length-append, ap, sym, ◌∙◌,
  append-nil, append_assoc, store, codes, ℤ, pos, negsuc, map, assert, dec_lt, ℕ_discrete,
}
use smtp_protos.CString.{c_str, strcmp_eq}

-- mail_entry_t
pub record MailEntry : Type 0 where
  pub sender : List ℕ
  pub recipient : List ℕ
  pub path : List ℕ
  pub time : ℤ

-- access_registry_t, whose users are the newest first.
pub record AccessRegistry : Type 0 where
  pub mails_count : ℕ
  pub users : List (List ℕ)
  pub by_name : List MailEntry
  pub by_time : List MailEntry

-- time_t values are compared as signed numbers.
unfoldable pub earlier : ℤ → ℤ → Bool
earlier (pos m) (pos n) = ltb m n
earlier (pos m) (negsuc n) = false
earlier (negsuc m) (pos n) = true
earlier (negsuc m) (negsuc n) = ltb n m

unfoldable pub is_user_present : List (List ℕ) → List ℕ → Bool
is_user_present [] user = false
is_user_present (current ∷ next) user = strcmp_eq current user || is_user_present next user

unfoldable pub add_user : List ℕ → List (List ℕ) → List (List ℕ)
add_user user users = if is_user_present users user then users else c_str user ∷ users

-- The new entry goes before the first that is not earlier.
unfoldable pub insert_by_time : MailEntry → List MailEntry → List MailEntry
insert_by_time m [] = m ∷ []
insert_by_time m (current ∷ next) =
    let rest = insert_by_time m next in
    if earlier current.time m.time then current ∷ rest else m ∷ current ∷ next

abbrev pub entry_of : List ℕ → List ℕ → List ℕ → ℤ → MailEntry
entry_of from to path time = record {
  sender = c_str from;
  recipient = c_str to;
  path = c_str path;
  time = time;
}

unfoldable pub register_mail : List ℕ → List ℕ → List ℕ → ℤ → AccessRegistry → AccessRegistry
register_mail from to path time r = record {
  mails_count = (r.mails_count + 1) % 2 ^ 32;
  users = add_user to (add_user from r.users);
  by_name = r.by_name ++ entry_of from to path time ∷ [];
  by_time = insert_by_time (entry_of from to path time) r.by_time;
}

-- SUPER_SECRET_PASSWORD
abbrev pub super_secret_password : List ℕ
super_secret_password = codes "password"

unfoldable pub authenticate : List ℕ → Bool
authenticate pwd = strcmp_eq super_secret_password pwd

unfoldable pub is_user : List ℕ → AccessRegistry → Bool
is_user user r = is_user_present r.users user
