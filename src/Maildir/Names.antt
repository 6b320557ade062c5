-- ===== src/Maildir/Names.antt =====
-- src/lib/maildir.c: the names of the files, and where they do not fit the memory for them.
use smtp_protos.Prelude.{
  ℕ, zero, suc, ◌+◌, ◌≤◌, ◌<◌, ◌≡◌, ◌≢◌, ◌↔◌, ◌⊎◌, List, [], ◌∷◌, ◌++◌, Option, none, some, arith,
  length, Bool, ltb, ◌==◌, length-take, Returns, take, if◌then◌else◌, ◌>>=◌, Bool-cases,
  Option-cases, inl, inr, refl, Returns-bind, Returns-mono, All, length-append, ap, ◌∙◌, append-nil,
  append_assoc, codes, ℤ,
}
use Prim.Native.Nat.{min}
use smtp_protos.Prelude.{get_elem?, take-whole}
use smtp_protos.Maildir.{
  FileSystem, charset, rand_max, char_index, rand_str, strcat, strtok_at, dir_of, cut_to,
  maildir_len, mail_file_name_length, full_path_size, create_maildir, mail_file_name,
  create_temp_mail_file, copy_temp_to_new_single, copy_file, copy_into,
}

char_index_bounds :
    (r : ℕ) → r ≤ rand_max → (char_index r ≤ 62) × ((char_index r ≡ 62) ↔ (r ≡ rand_max))
unfolding char_index
char_index_bounds r h = (omega arith, ((λ e. omega arith), (λ e. omega arith)))

-- A place of a C string holds the NUL exactly if it is its end.
end_lem :
    (xs : List ℕ) (i : ℕ)
    → All (λ c. c ≢ 0) xs
    → i ≤ length xs
    → Returns (get_elem? (xs ++ 0 ∷ []) i) (λ c. (c ≡ 0) ↔ (i ≡ length xs))
end_lem [] zero nz h = ((λ e. refl), (λ e. refl))
end_lem [] (suc i) nz h = absurd (omega arith)
end_lem (x ∷ xs) zero nz h = ((λ e. absurd (nz.0 e)), (λ e. absurd (omega arith)))
end_lem (x ∷ xs) (suc i) nz h =
    Returns-mono _ (λ c. (c ≡ 0) ↔ (suc i ≡ suc (length xs))) (get_elem? (xs ++ 0 ∷ []) i)
      (λ c p. ((λ e. ap suc (p.0 e)), (λ e. p.1 (omega arith)))) (end_lem xs i nz.1 (omega arith))

charset_char :
    (r : ℕ)
    → r ≤ rand_max
    → Returns (get_elem? charset (char_index r)) (λ c. (c ≡ 0) ↔ (r ≡ rand_max))
charset_char r h =
    let (within, last) = char_index_bounds r h in
    Returns-mono _ (λ c. (c ≡ 0) ↔ (r ≡ rand_max)) (get_elem? charset (char_index r))
      (λ c p. ((λ e. last.0 (p.0 e)), (λ e. p.1 (last.1 e))))
      (end_lem (codes "0123456789abcdefghijklmnopqrstuvwxyzABCDEFGHIJKLMNOPQRSTUVWXYZ")
        (char_index r) nonzero within)
  where
    nonzero :
        All (λ c. c ≢ 0) (codes "0123456789abcdefghijklmnopqrstuvwxyzABCDEFGHIJKLMNOPQRSTUVWXYZ")
    nonzero = omega arith

-- The characters, against the results of rand.
unfoldable pub Random : List ℕ → List ℕ → Type 0
Random [] [] = Unit {0}
Random (r ∷ rs) (c ∷ cs) = ((c ≡ 0) ↔ (r ≡ rand_max)) × Random rs cs
Random _ _ = ⊥

-- rand_str reads its characters within the array, one for each result of rand; a character is the
-- NUL exactly where rand has given RAND_MAX.
pub rand_str_lem : (rs : List ℕ) → All (λ r. r ≤ rand_max) rs → Returns (rand_str rs) (Random rs)
unfolding rand_str Random
rand_str_lem [] h = tt
rand_str_lem (r ∷ rs) h =
    Returns-bind (λ c. (c ≡ 0) ↔ (r ≡ rand_max)) (Random (r ∷ rs))
      (get_elem? charset (char_index r)) _
      (λ c p.
        Returns-bind (Random rs) (Random (r ∷ rs)) (rand_str rs) (λ dest. some (c ∷ dest))
          (λ dest q. (p, q)) (rand_str_lem rs h.1))
      (charset_char r h.0)

strcat_cases :
    (size : ℕ) (dest src : List ℕ)
    → ((strcat size dest src ≡ none) × (size ≤ length dest + length src))
      ⊎ ((strcat size dest src ≡ some (dest ++ src)) × (length dest + length src < size))
unfolding strcat
strcat_cases size dest src = elim (Bool-cases (ltb (length dest + length src) size)) [
  | inl e ↦ inr (rw e refl, ground arith)
  | inr e ↦ inl (rw e refl, ground arith)
]

-- A name is put behind the user's directory and `inner`, in the memory of create_maildir.
abbrev pub file_path : List ℕ → List ℕ → List ℕ → Option (List ℕ)
file_path dir inner name = do
  d ← strcat maildir_len dir inner
  strcat maildir_len d (take mail_file_name_length name)

length-dir :
    (user : List ℕ) → length (cut_to maildir_len (dir_of user [])) ≡ min 77 (10 + length user)
unfolding dir_of
length-dir user = omega (
  arith,
  length-take 77 (codes "./Maildir/" ++ (user ++ [])),
  length-append (codes "./Maildir/") (user ++ []),
  length-append user [],
)

-- It fits exactly if the user and the name, of which 24 bytes are taken, have 62 bytes together.
file_path_fault :
    (user inner name : List ℕ)
    → length inner ≡ 5
    → (file_path (cut_to maildir_len (dir_of user [])) inner name ≡ none)
      ↔ (62 < length user + length (take mail_file_name_length name))
file_path_fault user inner name h =
    let dir = cut_to maildir_len (dir_of user []) in
    let size = length-dir user in
    let both = length-append dir inner in
    elim (strcat_cases maildir_len dir inner) [
      | inl (e, k) ↦ rw e ((λ p. omega (arith, size)), (λ p. refl))
      | inr (e, k) ↦
          rw e (elim (strcat_cases maildir_len (dir ++ inner) (take mail_file_name_length name)) [
            | inl (f, l) ↦ ((λ p. omega (arith, size)), (λ p. f))
            | inr (f, l) ↦ ((λ p. cc), (λ p. absurd (omega (arith, size))))
          ])
    ]

pub file_path_lem :
    (user inner name : List ℕ)
    → length inner ≡ 5
    → length user + length (take mail_file_name_length name) ≤ 62
    → file_path (cut_to maildir_len (dir_of user [])) inner name
      ≡ some (codes "./Maildir/" ++ (user ++ (inner ++ take mail_file_name_length name)))
file_path_lem user inner name h k =
    let size = length-append (codes "./Maildir/") (user ++ []) in
    let whole : cut_to maildir_len (dir_of user []) ≡ codes "./Maildir/" ++ user =
      unfold dir_of in
      (take-whole (codes "./Maildir/" ++ (user ++ [])) 77
          (omega (arith, size, length-append user []))
        ∙ ap (λ ys. codes "./Maildir/" ++ ys) (append-nil user)) in
    let dir = codes "./Maildir/" ++ user in
    let both = length-append dir inner in
    let long : length dir ≡ 10 + length user = length-append (codes "./Maildir/") user in
    rw whole (elim (strcat_cases maildir_len dir inner) [
      | inl (e, l) ↦ absurd (omega arith)
      | inr (e, l) ↦
          rw e (elim (strcat_cases maildir_len (dir ++ inner) (take mail_file_name_length name)) [
            | inl (f, m) ↦ absurd (omega arith)
            | inr (f, m) ↦
                f
                ∙ ap some (
                    append_assoc dir inner (take mail_file_name_length name)
                    ∙ append_assoc (codes "./Maildir/") user
                        (inner ++ take mail_file_name_length name))
          ])
    ])

bind_then :
    {A : Type 0} (dir inner name : List ℕ) (f : List ℕ → A)
    → (do
      d ← strcat maildir_len dir inner
      path ← strcat maildir_len d (take mail_file_name_length name)
      some (f path))
      ≡ (file_path dir inner name >>= λ path. some (f path))
bind_then dir inner name f = elim (Option-cases (strcat maildir_len dir inner)) [
  | inl e ↦ rw e refl
  | inr (d, e) ↦ rw e refl
]

bind_none :
    {A B : Type 0} (m : Option A) (f : A → B) → ((m >>= λ a. some (f a)) ≡ none) ↔ (m ≡ none)
bind_none none f = ((λ e. refl), (λ e. refl))
bind_none (some a) f = ((λ e. cc), (λ e. cc))

module _ (fs : FileSystem) where
  pub create_maildir_cases :
      (mem : Bool) (user : List ℕ) (s : fs.State)
      → ((create_maildir fs mem user s).0 ≡ none)
        ⊎ ((create_maildir fs mem user s).0 ≡ some (cut_to maildir_len (dir_of user [])))
  unfolding create_maildir
  create_maildir_cases mem user s = ground arith

  -- What create_temp_mail_file returns for the path.
  abbrev pub temp_result : List ℕ → List ℕ → List ℕ → fs.State → ℤ × List ℕ × List ℕ × fs.State
  temp_result name copy_addr_path path t = (
    (fs.open_file t path).0,
    name,
    if length copy_addr_path == 0 then cut_to full_path_size path else copy_addr_path,
    (fs.open_file t path).1,
  )

  pub create_temp_mail_file-eq :
      (mem : Bool) (time random email copy_addr copy_addr_path user : List ℕ) (s : fs.State)
      → strtok_at email ≡ some user
      → (create_maildir fs mem user s).0 ≡ some (cut_to maildir_len (dir_of user []))
      → create_temp_mail_file fs mem time random email copy_addr copy_addr_path s ≡ (
          file_path
            (cut_to maildir_len (dir_of user []))
            (codes "/tmp/")
            (mail_file_name time random copy_addr)
          >>= λ path. some (
              temp_result
                (mail_file_name time random copy_addr)
                copy_addr_path
                path
                (create_maildir fs mem user s).1))
  unfolding create_temp_mail_file
  create_temp_mail_file-eq mem time random email copy_addr copy_addr_path user s h e = rw h (
      rw e (
        bind_then (cut_to maildir_len (dir_of user [])) (codes "/tmp/")
          (mail_file_name time random copy_addr)
          (λ path.
            temp_result (mail_file_name time random copy_addr) copy_addr_path path
              (create_maildir fs mem user s).1)))

  pub copy_temp_to_new_single-eq :
      (mem : Bool) (email name full_path user : List ℕ) (s : fs.State)
      → strtok_at email ≡ some user
      → (create_maildir fs mem user s).0 ≡ some (cut_to maildir_len (dir_of user []))
      → copy_temp_to_new_single fs mem email name full_path s ≡ (
          file_path (cut_to maildir_len (dir_of user [])) (codes "/new/") name >>= λ path.
          some (copy_file fs full_path path (create_maildir fs mem user s).1))
  unfolding copy_temp_to_new_single copy_into
  copy_temp_to_new_single-eq mem email name full_path user s h e = rw h (
      rw (copy_into, e)
        (bind_then (cut_to maildir_len (dir_of user [])) (codes "/new/") name
          (λ path. copy_file fs full_path path (create_maildir fs mem user s).1)))

  -- For an address with a user, create_temp_mail_file is undefined exactly if the directories are not
  -- made, or the user and the file's name have more than 62 bytes together.
  pub create_temp_mail_file_fault_iff :
      (mem : Bool) (time random email copy_addr copy_addr_path user : List ℕ) (s : fs.State)
      → strtok_at email ≡ some user
      → (create_temp_mail_file fs mem time random email copy_addr copy_addr_path s ≡ none) ↔ (
          ((create_maildir fs mem user s).0 ≡ none)
          ⊎ (62
              < length user
                + length (take mail_file_name_length (mail_file_name time random copy_addr))))
  unfolding create_temp_mail_file
  create_temp_mail_file_fault_iff mem time random email copy_addr copy_addr_path user s h =
      let name = mail_file_name time random copy_addr in
      let (to, back) = file_path_fault user (codes "/tmp/") name refl in
      elim (create_maildir_cases mem user s) [
        | inl e ↦ rw h (rw e ((λ p. inl refl), (λ p. refl)))
        | inr e ↦
            let b =
              bind_none (file_path (cut_to maildir_len (dir_of user [])) (codes "/tmp/") name)
                (λ path. temp_result name copy_addr_path path (create_maildir fs mem user s).1) in
            rw (create_temp_mail_file-eq mem time random email copy_addr copy_addr_path user s h e)
              (
                (λ p. inr (to (b.0 p))),
                (λ p. elim p [ inl q ↦ absurd (cc) | inr q ↦ b.1 (back q) ]),
              )
      ]

  -- For an address with a user, copy_temp_to_new_single is undefined exactly if the directories are
  -- made, and the user and the file's name have more than 62 bytes together.
  pub copy_temp_to_new_single_fault_iff :
      (mem : Bool) (email name full_path user : List ℕ) (s : fs.State)
      → strtok_at email ≡ some user
      → (copy_temp_to_new_single fs mem email name full_path s ≡ none) ↔ (
          ((create_maildir fs mem user s).0 ≢ none)
          × (62 < length user + length (take mail_file_name_length name)))
  unfolding copy_temp_to_new_single copy_into
  copy_temp_to_new_single_fault_iff mem email name full_path user s h =
      let (to, back) = file_path_fault user (codes "/new/") name refl in
      elim (create_maildir_cases mem user s) [
        | inl e ↦ rw h (rw (copy_into, e) ((λ p. cc), (λ p. absurd (p.0 refl))))
        | inr e ↦
            let b =
              bind_none (file_path (cut_to maildir_len (dir_of user [])) (codes "/new/") name)
                (λ path. copy_file fs full_path path (create_maildir fs mem user s).1) in
            rw (copy_temp_to_new_single-eq mem email name full_path user s h e)
              ((λ p. ((λ q. cc), to (b.0 p))), (λ p. b.1 (back p.1)))
      ]
