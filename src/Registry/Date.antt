-- ===== src/Registry/Date.antt =====
-- src/lib/access_registry.c: the check of a date dd/mm/yyyy. A char is signed, so that bytes from
-- 128 on are negative. sscanf and mktime are the C library's.
use smtp_protos.Prelude.{
  ℕ, ◌+◌, ◌-◌, ◌*◌, ◌%◌, ◌≤◌, ◌≡◌, ◌≢◌, List, [], ◌∷◌, Option, none, some, arith, length, Bool,
  true, false, ltb, leb, ◌==◌, ◌&&◌, ◌||◌, not, get_or, if◌then◌else◌, refl, All, ℤ, pos, negsuc,
}
use smtp_protos.CString.{c_str, strlen}

-- The difference of two numbers as an int.
abbrev pub minus_int : ℕ → ℕ → ℤ
minus_int m n = if leb n m then pos (m - n) else negsuc (n - m - 1)

abbrev pub below : ℤ → ℕ → Bool
below (pos m) n = ltb m n
below (negsuc _) n = true

abbrev pub above : ℤ → ℕ → Bool
above (pos m) n = ltb n m
above (negsuc _) n = false

abbrev pub is_int : ℤ → ℕ → Bool
is_int (pos m) n = m == n
is_int (negsuc _) n = false

-- A char of the string, to which 128 is added.
abbrev pub char_up : List ℕ → ℕ → ℕ
char_up s i = (get_or s i 0 + 128) % 256

-- (time[i] - '0') * 10 + (time[i + 1] - '0'), where 176 is '0' + 128.
unfoldable pub two_digits : List ℕ → ℕ → ℤ
two_digits s i = minus_int (char_up s i * 10 + char_up s (i + 1)) (176 * 11)

unfoldable pub four_digits : List ℕ → ℕ → ℤ
four_digits s i =
    minus_int
      (char_up s i * 1000 + char_up s (i + 1) * 100 + char_up s (i + 2) * 10 + char_up s (i + 3))
      (176 * 1111)

-- The year is not negative where this is called.
unfoldable pub is_leap_year : ℤ → Bool
is_leap_year (pos year) = year % 4 == 0 && not (year % 100 == 0) || year % 400 == 0
is_leap_year (negsuc _) = false

-- The checks of the three values.
unfoldable pub values_ok : ℤ → ℤ → ℤ → Bool
unfolding is_leap_year
values_ok day month year =
    if below year 1900 || above year 2100
    then false
    else if below month 1 || above month 12
    then false
    else if below day 1 || above day 31
    then false
    else if is_int month 2
    then (if is_leap_year year then not (above day 29) else not (above day 28))
    else if is_int month 4 || is_int month 6 || is_int month 9 || is_int month 11
    then not (above day 30)
    else true

unfoldable pub is_valid_time : List ℕ → Bool
unfolding two_digits four_digits values_ok
is_valid_time time =
    if not (strlen time == 10)
    then false
    else if not (get_or time 2 0 == b'/') || not (get_or time 5 0 == b'/')
    then false
    else values_ok (two_digits time 0) (two_digits time 3) (four_digits time 6)

abbrev pub sub_int : ℤ → ℕ → ℤ
sub_int (pos m) n = minus_int m n
sub_int (negsuc m) n = negsuc (m + n)

-- mktime answers -1 when it fails.
abbrev pub known_time : ℤ → Option ℤ
known_time t = elim t [ pos n ↦ some (pos n) | negsuc n ↦ if n == 0 then none else some (negsuc n) ]

-- `sscanf` gives the three numbers of "%d/%d/%d"; `mktime` gives the time of a day, month and year
-- as they stand in struct tm, -1 if there is none.
unfoldable pub convert_and_validate_date :
    (sscanf : List ℕ → Option (ℤ × ℤ × ℤ)) → (mktime : ℤ → ℤ → ℤ → ℤ) → List ℕ → Option ℤ
convert_and_validate_date sscanf mktime date_str =
    if not (is_valid_time date_str) then none else elim (sscanf date_str) [
      | none ↦ none
      | some (day, month, year) ↦ known_time (mktime day (sub_int month 1) (sub_int year 1900))
    ]

-- The calendar: the days of a month of a year.
abbrev pub days_of : ℕ → ℕ → ℕ
days_of month year =
    if month == 2
    then (if (year % 4 == 0 && not (year % 100 == 0) || year % 400 == 0) then 29 else 28)
    else if month == 4 || month == 6 || month == 9 || month == 11
    then 30
    else 31

-- The bytes of a date.
abbrev pub date : (d₁ d₀ m₁ m₀ y₃ y₂ y₁ y₀ : ℕ) → List ℕ
date d₁ d₀ m₁ m₀ y₃ y₂ y₁ y₀ =
    (48 + d₁)
    ∷ (48 + d₀)
    ∷ b'/'
    ∷ (48 + m₁)
    ∷ (48 + m₀)
    ∷ b'/'
    ∷ (48 + y₃)
    ∷ (48 + y₂)
    ∷ (48 + y₁)
    ∷ (48 + y₀)
    ∷ []

strlen-nonzero : (s : List ℕ) → All (λ c. c ≢ 0) s → strlen s ≡ length s
unfolding strlen c_str
strlen-nonzero [] h = refl
strlen-nonzero (c ∷ cs) h = ground (arith, strlen-nonzero cs h.1)

abbrev pub Digit : ℕ → Type 0
Digit d = d ≤ 9

values_ok_lem :
    (day month year : ℕ)
    → values_ok (pos day) (pos month) (pos year) ≡ (
        leb 1900 year
        && leb year 2100
        && leb 1 month
        && leb month 12
        && leb 1 day
        && leb day (days_of month year))
unfolding values_ok is_leap_year
values_ok_lem day month year = ground arith

two_digits_lem :
    (s : List ℕ) (i a b : ℕ)
    → get_or s i 0 ≡ 48 + a
    → get_or s (i + 1) 0 ≡ 48 + b
    → a ≤ 9
    → b ≤ 9
    → two_digits s i ≡ pos (10 * a + b)
unfolding two_digits
two_digits_lem s i a b e f h k = rw (e, f) (ground arith)

four_digits_lem :
    (s : List ℕ) (i a b c d : ℕ)
    → get_or s i 0 ≡ 48 + a
    → get_or s (i + 1) 0 ≡ 48 + b
    → get_or s (i + 2) 0 ≡ 48 + c
    → get_or s (i + 3) 0 ≡ 48 + d
    → a ≤ 9
    → b ≤ 9
    → c ≤ 9
    → d ≤ 9
    → four_digits s i ≡ pos (1000 * a + 100 * b + 10 * c + d)
unfolding four_digits
four_digits_lem s i a b c d e f g h k l m n = rw (e, f, g, h) (ground arith)

-- A string of ten digits and slashes, dd/mm/yyyy, is accepted exactly if it is a day of the
-- calendar in a year from 1900 to 2100.
pub is_valid_time_lem :
    (d₁ d₀ m₁ m₀ y₃ y₂ y₁ y₀ : ℕ)
    → Digit d₁
    → Digit d₀
    → Digit m₁
    → Digit m₀
    → Digit y₃
    → Digit y₂
    → Digit y₁
    → Digit y₀
    → (let day = 10 * d₁ + d₀ in
        let month = 10 * m₁ + m₀ in
        let year = 1000 * y₃ + 100 * y₂ + 10 * y₁ + y₀ in
        is_valid_time (date d₁ d₀ m₁ m₀ y₃ y₂ y₁ y₀) ≡ (
          leb 1900 year
          && leb year 2100
          && leb 1 month
          && leb month 12
          && leb 1 day
          && leb day (days_of month year)))
unfolding is_valid_time
is_valid_time_lem d₁ d₀ m₁ m₀ y₃ y₂ y₁ y₀ a b c d e f g h =
    let s = date d₁ d₀ m₁ m₀ y₃ y₂ y₁ y₀ in
    let long : strlen s ≡ 10 = strlen-nonzero s (
      omega arith,
      (
        omega arith,
        (
          omega arith,
          (
            omega arith,
            (
              omega arith,
              (omega arith, (omega arith, (omega arith, (omega arith, (omega arith, tt))))),
            ),
          ),
        ),
      ),
    ) in
    rw
      (
        long,
        two_digits_lem s 0 d₁ d₀ refl refl a b,
        two_digits_lem s 3 m₁ m₀ refl refl c d,
        four_digits_lem s 6 y₃ y₂ y₁ y₀ refl refl refl refl e f g h,
      )
      (values_ok_lem (10 * d₁ + d₀) (10 * m₁ + m₀) (1000 * y₃ + 100 * y₂ + 10 * y₁ + y₀))
