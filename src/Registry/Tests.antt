-- ===== src/Registry/Tests.antt =====
-- Runs of src/lib/access_registry.c.
use smtp_protos.Prelude.{
  true, ℕ, ◌+◌, ◌/◌, ◌<◌, ◌≡◌, ◌↔◌, ◌⊎◌, List, [], ◌∷◌, none, arith, length, leb, ◌&&◌, take, refl,
  codes, ℤ, pos, negsuc,
}
use smtp_protos.Registry.Mock.{two_digit, minus_seconds}
use smtp_protos.Registry.{AccessRegistry, register_mail}
use smtp_protos.Registry.Inv.{IsValid, IsSorted, count, register_mail-IsValid}
use smtp_protos.Registry.Date.{
  two_digits, four_digits, values_ok, is_leap_year, is_valid_time, is_valid_time_lem, date, days_of,
}
use smtp_protos.Registry.Print.{Tm, print_mails, print_mails_by_day, on_day}
use smtp_protos.Registry.Listing.{
  matching, Overflows, texts, print_mails_lem, print_mails_by_day_fault_iff,
}
use smtp_protos.CString.{strcmp_eq, strlen, c_str}

abbrev none_yet : AccessRegistry
none_yet = record { mails_count = 0; users = []; by_name = []; by_time = [] }

none_yet-IsValid : IsValid none_yet
unfolding IsSorted count
none_yet-IsValid = record { sorted = tt; same = λ _. refl; known = tt; counted = refl }

-- Two mails, the second the earlier.
abbrev two_mails : AccessRegistry
two_mails =
    register_mail (codes "b@x") (codes "a@x") (codes "q") (pos 40)
      (register_mail (codes "a@x") (codes "b@x") (codes "p") (pos 70) none_yet)

two_mails-IsValid : IsValid two_mails
two_mails-IsValid = register_mail-IsValid (codes "b@x") (codes "a@x") (codes "q") (pos 40) _ (
    register_mail-IsValid (codes "a@x") (codes "b@x") (codes "p") (pos 70) none_yet
      none_yet-IsValid)

register_mail-IsValid_example :
    IsValid (register_mail (codes "c@x") (codes "a@x") (codes "r") (negsuc 4) two_mails)
register_mail-IsValid_example =
    register_mail-IsValid (codes "c@x") (codes "a@x") (codes "r") (negsuc 4) two_mails
      two_mails-IsValid

-- A time as one byte, and days of 86400 seconds.
abbrev decimal : ℤ → List ℕ
decimal (pos n) = n ∷ []
decimal (negsuc n) = 45 ∷ n ∷ []

abbrev localtime : ℤ → Tm
localtime (pos n) = record { tm_year = pos 70; tm_mon = 0; tm_mday = n / 86400 + 1 }
localtime (negsuc n) = record { tm_year = pos 69; tm_mon = 11; tm_mday = 31 }

print_mails_by_day_fault_iff_example :
    (print_mails_by_day decimal localtime 1024 (pos 5) (codes "a@x") two_mails ≡ none) ↔ (
      (matching (on_day decimal localtime (pos 5) (codes "a@x")) two_mails.by_time ≡ [])
      ⊎ Overflows decimal 0
          (matching (on_day decimal localtime (pos 5) (codes "a@x")) two_mails.by_time))
print_mails_by_day_fault_iff_example =
    print_mails_by_day_fault_iff decimal localtime 1024 (pos 5) (codes "a@x") two_mails

print_mails_lem_example :
    (k : ℕ) × (print_mails decimal 1024 (codes "a@x") two_mails
      ≡ take 1023 (
          texts decimal
            (take k (matching (λ m. strcmp_eq m.sender (codes "a@x")) two_mails.by_name))))
    × (length (print_mails decimal 1024 (codes "a@x") two_mails) < 1024)
    × (length (print_mails decimal 1024 (codes "a@x") two_mails) < 1024)
print_mails_lem_example = print_mails_lem decimal 1024 (codes "a@x") two_mails (omega arith)

-- 29/02/1900 is not a day.
is_valid_time_lem_example :
    is_valid_time (date 2 9 0 2 1 9 0 0)
    ≡ (leb 1900 1900 && leb 1900 2100 && leb 1 2 && leb 2 12 && leb 1 29 && leb 29 (days_of 2 1900))
is_valid_time_lem_example =
    is_valid_time_lem 2 9 0 2 1 9 0 0 (omega arith) (omega arith) (omega arith) (omega arith)
      (omega arith) (omega arith) (omega arith) (omega arith)

two_digit_test : two_digit 42 ≡ codes "42"
unfolding two_digit
two_digit_test = refl

-- A time before 1970.
minus_seconds_test : minus_seconds (pos 5) 7 ≡ negsuc 1
unfolding minus_seconds
minus_seconds_test = refl

-- Other bytes than digits are reckoned with: 1: is the day twenty.
colon_test : is_valid_time (codes "1:/01/2000") ≡ true
unfolding is_valid_time strlen c_str two_digits four_digits values_ok is_leap_year
colon_test = refl
