-- ===== src/Registry/Listing.antt =====
-- src/lib/access_registry.c: what the listings hold, and where they leave their array.
use smtp_protos.Prelude.{
  ℕ, zero, suc, ◌+◌, ◌-◌, ◌≤◌, ◌<◌, ◌≡◌, ◌↔◌, ◌⊎◌, List, [], ◌∷◌, ◌++◌, none, some, arith, length,
  Bool, ltb, leb, length-take, take, if◌then◌else◌, Bool-cases, inl, inr, refl, length-append, ap,
  sym, ◌∙◌, append-nil, append_assoc, ℤ,
}
use smtp_protos.CString.{strcmp_eq}
use smtp_protos.Registry.{MailEntry, AccessRegistry}
use smtp_protos.Registry.Print.{
  Tm, entry_text, print_matching, print_mails_by_day, on_day, print_fitting, print_mails, temp_size,
  copy_out,
}

-- The entries that pass a test.
abbrev pub matching : (MailEntry → Bool) → List MailEntry → List MailEntry
matching test [] = []
matching test (m ∷ rest) = if test m then m ∷ matching test rest else matching test rest

take_all : (n : ℕ) (xs : List ℕ) → length xs ≤ n → take n xs ≡ xs
take_all zero [] h = refl
take_all (suc n) [] h = refl
take_all zero (x ∷ xs) h = absurd (omega arith)
take_all (suc n) (x ∷ xs) h = ap (◌∷◌ x) (take_all n xs (omega arith))

cut_lem :
    (n : ℕ) (xs : List ℕ)
    → take (if leb n (length xs) then n - 1 else length xs) xs ≡ take (n - 1) xs
cut_lem n xs = elim (Bool-cases (leb n (length xs))) [
  | inl e ↦ rw e refl
  | inr e ↦ rw e (take_all (length xs) xs (omega arith) ∙ sym (take_all (n - 1) xs (ground arith)))
]

module _ (decimal : ℤ → List ℕ) where
  -- The texts of entries, one after another.
  abbrev pub texts : List MailEntry → List ℕ
  texts [] = []
  texts (m ∷ rest) = entry_text decimal m ++ texts rest

  -- Some entry would be printed after more bytes than the array has.
  abbrev pub Overflows : ℕ → List MailEntry → Type 0
  Overflows used ms = (k : ℕ) × (k < length ms) × (temp_size < used + length (texts (take k ms)))

  overflow_later :
      (used : ℕ) (m : MailEntry) (ms : List MailEntry)
      → Overflows (used + length (entry_text decimal m)) ms
      → Overflows used (m ∷ ms)
  overflow_later used m ms (k, h, o) =
      (suc k, omega arith, omega (arith, length-append (entry_text decimal m) (texts (take k ms))))

  overflow_after :
      (used : ℕ) (m : MailEntry) (ms : List MailEntry)
      → used ≤ temp_size
      → Overflows used (m ∷ ms)
      → Overflows (used + length (entry_text decimal m)) ms
  overflow_after used m ms l (zero, h, o) = absurd (omega arith)
  overflow_after used m ms l (suc k, h, o) =
      (k, omega arith, omega (arith, length-append (entry_text decimal m) (texts (take k ms))))

  print_matching_cases :
      (test : MailEntry → Bool) (ms : List MailEntry) (text : List ℕ)
      → ((print_matching decimal test ms text ≡ none) × Overflows (length text) (matching test ms))
        ⊎ ((print_matching decimal test ms text ≡ some (text ++ texts (matching test ms)))
            × ¬ Overflows (length text) (matching test ms))
  unfolding print_matching
  print_matching_cases test [] text =
      inr (ap some (sym (append-nil text)), λ o. absurd (omega (arith, o.1)))
  print_matching_cases test (m ∷ rest) text = elim (Bool-cases (test m)) [
    | inr e ↦ rw e (print_matching_cases test rest text)
    | inl e ↦ rw e (elim (Bool-cases (ltb temp_size (length text))) [
      | inl f ↦ rw f (inl (refl, (0, omega arith, ground arith)))
      | inr f ↦
          let sum = length-append text (entry_text decimal m) in
          let room : length text ≤ temp_size = ground arith in
          rw f (elim (print_matching_cases test rest (text ++ entry_text decimal m)) [
            | inl (p, o) ↦
                inl (p, overflow_later (length text) m (matching test rest) (rw sum at o))
            | inr (p, o) ↦ inr (
              p ∙ ap some (append_assoc text (entry_text decimal m) (texts (matching test rest))),
              λ q. o (rw sum (overflow_after (length text) m (matching test rest) room q)),
            )
          ])
    ])
  ]

  copy_out-texts :
      (buf_size : ℕ) (ms : List MailEntry) → (copy_out buf_size (texts ms) ≡ none) ↔ (ms ≡ [])
  unfolding copy_out
  copy_out-texts buf_size [] = (λ _. refl, λ _. refl)
  copy_out-texts buf_size (m ∷ ms) = (λ e. cc, λ e. cc)

  -- The listing of a day is undefined exactly if no entry of that day is the user's, or if one is
  -- printed after more bytes than the array on the stack has.
  pub print_mails_by_day_fault_iff :
      (localtime : ℤ → Tm) (buf_size : ℕ) (day : ℤ) (user : List ℕ) (r : AccessRegistry)
      → (print_mails_by_day decimal localtime buf_size day user r ≡ none) ↔ (
          (matching (on_day decimal localtime day user) r.by_time ≡ [])
          ⊎ Overflows 0 (matching (on_day decimal localtime day user) r.by_time))
  unfolding print_mails_by_day
  print_mails_by_day_fault_iff localtime buf_size day user r =
      let test = on_day decimal localtime day user in
      elim (print_matching_cases test r.by_time []) [
        | inl (p, o) ↦ (λ _. inr o, λ _. rw p refl)
        | inr (p, o) ↦
            let empty = copy_out-texts buf_size (matching test r.by_time) in
            (
              λ e. inl (empty.0 (rw p at e)),
              λ e. elim e [ inl none_left ↦ rw p (empty.1 none_left) | inr over ↦ absurd (o over) ],
            )
      ]

  print_fitting_lem :
      (user : List ℕ) (ms : List MailEntry) (text : List ℕ)
      → length text < temp_size
      → (k : ℕ) × (print_fitting decimal user ms text
          ≡ text ++ texts (take k (matching (λ m. strcmp_eq m.sender user) ms)))
        × (length (print_fitting decimal user ms text) < temp_size)
  unfolding print_fitting
  print_fitting_lem user [] text h = (0, sym (append-nil text), h)
  print_fitting_lem user (m ∷ rest) text h = elim (Bool-cases (strcmp_eq m.sender user)) [
    | inr e ↦ rw e (print_fitting_lem user rest text h)
    | inl e ↦
        rw e (elim (Bool-cases (leb temp_size (length text + length (entry_text decimal m)))) [
          | inl f ↦ rw f (0, sym (append-nil text), h)
          | inr f ↦
              let sum = length-append text (entry_text decimal m) in
              let (k, p, l) =
                print_fitting_lem user rest (text ++ entry_text decimal m)
                  (rw sum (ground arith)) in
              rw f (
                suc k,
                p
                    ∙ append_assoc text (entry_text decimal m)
                        (texts (take k (matching (λ m. strcmp_eq m.sender user) rest))),
                l,
              )
        ])
  ]

  -- For an array that is not empty, the listing of a user's mails is a number of whole entries, the
  -- first of that user in the order of their registration, cut to the array; it is shorter than the
  -- array and than the one on the stack.
  pub print_mails_lem :
      (buf_size : ℕ) (user : List ℕ) (r : AccessRegistry)
      → 0 < buf_size
      → (k : ℕ) × (print_mails decimal buf_size user r
          ≡ take
              (buf_size - 1)
              (texts (take k (matching (λ m. strcmp_eq m.sender user) r.by_name))))
        × (length (print_mails decimal buf_size user r) < buf_size)
        × (length (print_mails decimal buf_size user r) < temp_size)
  unfolding print_mails
  print_mails_lem buf_size user r h =
      let (k, p, l) = print_fitting_lem user r.by_name [] (omega arith) in
      let text = print_fitting decimal user r.by_name [] in
      let bound = length-take (buf_size - 1) text in
      rw (cut_lem buf_size text) (k, ap (take (buf_size - 1)) p, omega arith, omega arith)
