-- ===== src/Registry/Print.antt =====
-- src/lib/access_registry.c: the listings, which are put together in an array on the stack and cut
-- to the caller's. `decimal` is what "%ld" prints and `localtime` is the C library's. An snprintf
-- whose offset is past the end of the array, where the room left wraps to a huge number, is a
-- fault, and so is a strncpy from the array when nothing was printed in it.
use smtp_protos.Prelude.{
  ℕ, ◌+◌, ◌-◌, List, [], ◌∷◌, ◌++◌, Option, none, some, length, Bool, true, false, ltb, leb, ◌==◌,
  ◌&&◌, ◌||◌, take, if◌then◌else◌, ◌>>=◌, codes, ℤ, pos, negsuc,
}
use smtp_protos.CString.{strcmp_eq}
use smtp_protos.Registry.{MailEntry, AccessRegistry, earlier}

-- The fields of struct tm that are compared.
pub record Tm : Type 0 where
  pub tm_year : ℤ
  pub tm_mon : ℕ
  pub tm_mday : ℕ

-- Equality of two ints.
abbrev pub same_int : ℤ → ℤ → Bool
same_int (pos m) (pos n) = m == n
same_int (negsuc m) (negsuc n) = m == n
same_int _ _ = false

-- sizeof(temp_buf)
abbrev pub temp_size : ℕ
temp_size = 1024

-- What the caller finds in its array after the last strncpy.
unfoldable pub copy_out : ℕ → List ℕ → Option (List ℕ)
copy_out buf_size [] = none
copy_out buf_size text = some (take (buf_size - 1) (take (temp_size - 1) text))

unfoldable pub skip_before : ℤ → List MailEntry → List MailEntry
skip_before start [] = []
skip_before start (m ∷ rest) =
    let later = skip_before start rest in if earlier m.time start then later else m ∷ rest

module _ (decimal : ℤ → List ℕ) where
  abbrev pub entry_text : MailEntry → List ℕ
  entry_text m =
      codes "From: "
      ++ m.sender
      ++ (b'\n' ∷ codes "To: ")
      ++ m.recipient
      ++ (b'\n' ∷ codes "Path: ")
      ++ m.path
      ++ (b'\n' ∷ codes "Time: ")
      ++ decimal m.time
      ++ (b'\n' ∷ b'\n' ∷ [])

  -- One snprintf at the offset `len`, the length of what all before would have printed.
  abbrev pub print_entry : List ℕ → MailEntry → Option (List ℕ)
  print_entry text m = if ltb temp_size (length text) then none else some (text ++ entry_text m)

  -- The loop over a list that prints the entries that pass a test.
  unfoldable pub print_matching : (MailEntry → Bool) → List MailEntry → List ℕ → Option (List ℕ)
  print_matching test [] text = some text
  print_matching test (m ∷ rest) text =
      let next = λ (t : List ℕ). print_matching test rest t in
      if test m then print_entry text m >>= next else next text

  unfoldable pub print_access_registry : ℕ → AccessRegistry → Option (List ℕ)
  print_access_registry buf_size r = print_matching (λ _. true) r.by_name [] >>= copy_out buf_size

  -- The loop of print_mails_by_time from the first entry that is not before the start.
  unfoldable pub print_until : ℤ → List MailEntry → List ℕ → Option (List ℕ)
  print_until end [] text = some text
  print_until end (m ∷ rest) text =
      let next = λ (t : List ℕ). print_until end rest t in
      if earlier end m.time then some text else print_entry text m >>= next

  unfoldable pub print_mails_by_time : ℕ → ℤ → ℤ → AccessRegistry → Option (List ℕ)
  print_mails_by_time buf_size start end r =
      print_until end (skip_before start r.by_time) [] >>= copy_out buf_size

  -- The loop of print_mails, which stops before an entry that does not fit.
  unfoldable pub print_fitting : List ℕ → List MailEntry → List ℕ → List ℕ
  print_fitting user [] text = text
  print_fitting user (m ∷ rest) text =
      let skipped = print_fitting user rest text in
      let added = print_fitting user rest (text ++ entry_text m) in
      if strcmp_eq m.sender user
      then (if leb temp_size (length text + length (entry_text m)) then text else added)
      else skipped

  unfoldable pub print_mails : ℕ → List ℕ → AccessRegistry → List ℕ
  print_mails buf_size user r =
      let text = print_fitting user r.by_name [] in
      take (if leb buf_size (length text) then buf_size - 1 else length text) text

  module _ (localtime : ℤ → Tm) where
    -- The test of print_mails_by_day.
    unfoldable pub on_day : ℤ → List ℕ → MailEntry → Bool
    on_day day user m =
        let d = localtime day in
        let t = localtime m.time in
        same_int t.tm_year d.tm_year
        && t.tm_mon == d.tm_mon
        && t.tm_mday == d.tm_mday
        && (strcmp_eq m.sender user || strcmp_eq m.recipient user)

    unfoldable pub print_mails_by_day : ℕ → ℤ → List ℕ → AccessRegistry → Option (List ℕ)
    print_mails_by_day buf_size day user r =
        print_matching (on_day day user) r.by_time [] >>= copy_out buf_size
