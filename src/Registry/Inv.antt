-- ===== src/Registry/Inv.antt =====
-- src/lib/access_registry.c: what register_mail keeps.
use smtp_protos.Prelude.{
  ℕ, ◌+◌, ◌%◌, ◌^◌, ◌≡◌, List, [], ◌∷◌, ◌++◌, arith, length, Bool, true, false, ◌||◌, if◌then◌else◌,
  Bool-cases, inl, inr, refl, All, All-mono, length-append, ap, sym, ◌∙◌, ℤ, pos, negsuc,
}
use smtp_protos.CString.{c_str, strcmp_eq-c_str, strcmp_eq_refl}
use smtp_protos.Registry.{
  entry_of, MailEntry, AccessRegistry, earlier, is_user_present, add_user, insert_by_time,
  register_mail,
}

-- No entry is later than the one after it.
unfoldable pub IsSorted : List MailEntry → Type 0
IsSorted [] = Unit
IsSorted (m ∷ []) = Unit
IsSorted (m ∷ n ∷ rest) = (earlier n.time m.time ≡ false) × IsSorted (n ∷ rest)

-- The number of entries that pass a test.
unfoldable pub count : (MailEntry → Bool) → List MailEntry → ℕ
count p [] = 0
count p (m ∷ rest) = (if p m then 1 else 0) + count p rest

-- The sender and the recipient of an entry are users.
abbrev pub Known : List (List ℕ) → MailEntry → Type 0
Known users m = (is_user_present users m.sender ≡ true) × (is_user_present users m.recipient ≡ true)

-- The list by time is sorted and holds the same entries as the list by name, as often; all their
-- senders and recipients are users; the count is right as long as it fits.
pub record IsValid (r : AccessRegistry) : Type 0 where
  pub sorted : IsSorted r.by_time
  pub same : (p : MailEntry → Bool) → count p r.by_time ≡ count p r.by_name
  pub known : All (Known r.users) r.by_name
  pub counted : r.mails_count ≡ length r.by_name % 2 ^ 32

earlier_asymmetric : (a b : ℤ) → earlier a b ≡ true → earlier b a ≡ false
unfolding earlier
earlier_asymmetric (pos m) (pos n) h = ground arith
earlier_asymmetric (pos m) (negsuc n) h = cc
earlier_asymmetric (negsuc m) (pos n) h = refl
earlier_asymmetric (negsuc m) (negsuc n) h = ground arith

insert-IsSorted :
    (m : MailEntry) (ms : List MailEntry) → IsSorted ms → IsSorted (insert_by_time m ms)
unfolding IsSorted insert_by_time
insert-IsSorted m [] h = tt
insert-IsSorted m (a ∷ []) h = elim (Bool-cases (earlier a.time m.time)) [
  | inl e ↦ rw e (earlier_asymmetric a.time m.time e, tt)
  | inr e ↦ rw e (e, tt)
]
insert-IsSorted m (a ∷ b ∷ rest) h = elim (Bool-cases (earlier a.time m.time)) [
  | inr e ↦ rw e (e, h)
  | inl e ↦
      let ih = insert-IsSorted m (b ∷ rest) h.1 in
      rw e (elim (Bool-cases (earlier b.time m.time)) [
        | inl f ↦ rw f (h.0, rw f at ih)
        | inr f ↦ rw f (earlier_asymmetric a.time m.time e, rw f at ih)
      ])
]

count-insert :
    (p : MailEntry → Bool) (m : MailEntry) (ms : List MailEntry)
    → count p (insert_by_time m ms) ≡ (if p m then 1 else 0) + count p ms
unfolding count insert_by_time
count-insert p m [] = omega arith
count-insert p m (a ∷ rest) = elim (Bool-cases (earlier a.time m.time)) [
  | inl e ↦ rw e (omega (arith, count-insert p m rest))
  | inr e ↦ rw e (omega arith)
]

count-append :
    (p : MailEntry → Bool) (ms : List MailEntry) (m : MailEntry)
    → count p (ms ++ m ∷ []) ≡ (if p m then 1 else 0) + count p ms
unfolding count
count-append p [] m = omega arith
count-append p (a ∷ ms) m = omega (arith, count-append p ms m)

or_true : (b : Bool) → (b || true) ≡ true
or_true true = refl
or_true false = refl

is_user_present-c_str :
    (users : List (List ℕ)) (u : List ℕ) → is_user_present users (c_str u) ≡ is_user_present users u
unfolding is_user_present
is_user_present-c_str [] u = refl
is_user_present-c_str (v ∷ users) u = rw (strcmp_eq-c_str v u, is_user_present-c_str users u)

-- Adding a user loses none.
add_user_keeps :
    (u v : List ℕ) (users : List (List ℕ))
    → is_user_present users v ≡ true
    → is_user_present (add_user u users) v ≡ true
unfolding add_user is_user_present
add_user_keeps u v users h = elim (Bool-cases (is_user_present users u)) [
  | inl e ↦ rw e h
  | inr e ↦ rw (e, h) (or_true _)
]

-- An added user is there, also under the name that strdup copied.
add_user_lem :
    (u : List ℕ) (users : List (List ℕ)) → is_user_present (add_user u users) (c_str u) ≡ true
unfolding add_user is_user_present
add_user_lem u users = elim (Bool-cases (is_user_present users u)) [
  | inl e ↦ rw e (is_user_present-c_str users u ∙ e)
  | inr e ↦ rw (e, strcmp_eq_refl (c_str u))
]

keeps_both :
    (u v w : List ℕ) (users : List (List ℕ))
    → is_user_present users w ≡ true
    → is_user_present (add_user v (add_user u users)) w ≡ true
keeps_both u v w users h = add_user_keeps v w (add_user u users) (add_user_keeps u w users h)

All-append_one :
    (P : MailEntry → Type 0) (ms : List MailEntry) (m : MailEntry)
    → All P ms
    → P m
    → All P (ms ++ m ∷ [])
All-append_one P [] m h k = (k, tt)
All-append_one P (a ∷ ms) m h k = (h.0, All-append_one P ms m h.1 k)

-- Registering a mail keeps the registry valid.
pub register_mail-IsValid :
    (from to path : List ℕ) (time : ℤ) (r : AccessRegistry)
    → IsValid r
    → IsValid (register_mail from to path time r)
unfolding register_mail
register_mail-IsValid from to path time r v =
    let entry = entry_of from to path time in
    record {
      sorted = insert-IsSorted entry r.by_time v.sorted;
      same = λ p.
          count-insert p entry r.by_time
          ∙ ap (◌+◌ (if p entry then 1 else 0)) (v.same p)
          ∙ sym (count-append p r.by_name entry);
      known =
          All-append_one _ r.by_name entry
            (All-mono r.by_name
              (λ m k. (
                keeps_both from to m.sender r.users k.0,
                keeps_both from to m.recipient r.users k.1,
              ))
              v.known)
            (
              add_user_keeps to (c_str from) (add_user from r.users) (add_user_lem from r.users),
              add_user_lem to (add_user from r.users),
            );
      counted = omega (arith, v.counted, length-append r.by_name (entry ∷ []));
    }
