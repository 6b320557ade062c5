-- ===== src/Maildir/Delivery.antt =====
-- src/lib/maildir.c: what a recipient's file holds after the copy.
use smtp_protos.Prelude.{
  ℕ, zero, suc, ◌+◌, ◌≤◌, ◌≡◌, ◌≢◌, List, [], ◌∷◌, ◌++◌, none, some, arith, length, Bool, ◌==◌, ap,
  take, drop, if◌then◌else◌, inl, inr, refl, length-append, ◌∙◌, append-nil, codes, pos,
}
use smtp_protos.Prelude.{take-whole}
use smtp_protos.Maildir.{
  FileSystem, strtok_at, cut_to, mail_file_name_length, send_limit, create_maildir, copy_file,
  copy_temp_to_new_single, create_temp_mail_file, mail_file_name, full_path_size,
}
use smtp_protos.Maildir.Dirs.{IsLawful, create_maildir_lem}
use smtp_protos.Maildir.Names.{
  file_path_lem, create_maildir_cases, copy_temp_to_new_single-eq, create_temp_mail_file-eq,
}

-- The path of a file in a directory of the user.
abbrev pub mail_path : List ℕ → List ℕ → List ℕ → List ℕ
mail_path user inner name =
    codes "./Maildir/" ++ (user ++ (inner ++ take mail_file_name_length name))

front_all : (n : ℕ) (xs ys : List ℕ) → length xs ≤ n → ys ≡ [] → take n xs ++ drop n ys ≡ xs
front_all zero xs ys h e = rw e (let z : length xs ≡ 0 = omega arith in empty xs z)
  where
    empty : (xs : List ℕ) → length xs ≡ 0 → [] ≡ xs
    empty [] h = refl
    empty (x ∷ xs) h = absurd (omega arith)
front_all (suc n) xs ys h e = rw e (append-nil (take (suc n) xs) ∙ take-whole xs (suc n) h)

module _ (fs : FileSystem) (lawful : IsLawful fs) where
  -- The files open.
  pub record Works : Type 0 where
    pub opens : (s : fs.State) (p : List ℕ) → (n : ℕ) × ((fs.open_file s p).0 ≡ pos n)

  -- The files after the two calls of open, of which copy_file makes the one of the new file first.
  abbrev pub opened : (from to : List ℕ) → fs.State → fs.State
  opened from to s = (fs.open_file (fs.open_file s to).1 from).1

  copy_file_lem :
      (from to : List ℕ) (s u : fs.State) (n : ℕ)
      → Works
      → fs.send_file (opened from to s) from to send_limit ≡ some (n, u)
      → (copy_file fs from to s ≡ u)
        × (fs.content u to ≡ take n (fs.content s from) ++ drop n (fs.content s to))
  unfolding copy_file
  copy_file_lem from to s u n w g =
      let t = (fs.open_file s to).1 in
      let (k, e) = w.opens s to in
      let (m, f) = w.opens t from in
      let same = λ (q : List ℕ). lawful.content-open t from q ∙ lawful.content-open s to q in
      let (_, c) = lawful.content-send (opened from to s) u from to send_limit n g in
      (rw (copy_file, e) (rw f (rw g refl)), rw (same from, same to) at c)

  -- For an address with a user and a name that fit, where the directories are made, the files open and
  -- sendfile, called on the message and the recipient's file, copies `n` bytes: the files are left as
  -- sendfile leaves them, and the recipient's file begins with the first `n` bytes of the message and
  -- goes on as it was; so if the message has no more bytes and the file is new, it is the message.
  pub copy_temp_to_new_single_lem :
      (mem : Bool) (email name full_path user : List ℕ) (s u : fs.State) (n : ℕ)
      → Works
      → strtok_at email ≡ some user
      → length user + length (take mail_file_name_length name) ≤ 62
      → (create_maildir fs mem user s).0 ≢ none
      → fs.send_file
          (opened full_path (mail_path user (codes "/new/") name) (create_maildir fs mem user s).1)
          full_path
          (mail_path user (codes "/new/") name)
          send_limit
        ≡ some (n, u)
      → (copy_temp_to_new_single fs mem email name full_path s ≡ some u)
        × (fs.content u (mail_path user (codes "/new/") name)
            ≡ take n (fs.content s full_path)
              ++ drop n (fs.content s (mail_path user (codes "/new/") name)))
        × (length (fs.content s full_path) ≤ n
            → fs.content s (mail_path user (codes "/new/") name) ≡ []
            → fs.content u (mail_path user (codes "/new/") name) ≡ fs.content s full_path)
  copy_temp_to_new_single_lem mem email name full_path user s u n w h fits made sends =
      elim (create_maildir_cases fs mem user s) [
        | inl e ↦ absurd (made e)
        | inr e ↦
            let (kept, _) = create_maildir_lem fs lawful mem user s (omega arith) in
            let to = mail_path user (codes "/new/") name in
            let (r, c) = copy_file_lem full_path to (create_maildir fs mem user s).1 u n w sends in
            let c' = rw (kept.files full_path, kept.files to) at c in
            (
              rw (copy_temp_to_new_single-eq fs mem email name full_path user s h e)
                  (rw (file_path_lem user (codes "/new/") name refl fits) (ap some r)),
              c',
              (λ all new. c' ∙ front_all n (fs.content s full_path) (fs.content s to) all new),
            )
      ]

  -- For an address with a user and a name that fit, where the directories are made, the file is opened
  -- in tmp of the user's directory; its path is told if none was known, otherwise the one that was
  -- known stays, whichever file has been opened.
  pub create_temp_mail_file_lem :
      (mem : Bool) (time random email copy_addr copy_addr_path user : List ℕ) (s : fs.State)
      → strtok_at email ≡ some user
      → let name = mail_file_name time random copy_addr in
        let path = mail_path user (codes "/tmp/") name in
        let t = (create_maildir fs mem user s).1 in
        length user + length (take mail_file_name_length name) ≤ 62
        → (create_maildir fs mem user s).0 ≢ none
        → create_temp_mail_file fs mem time random email copy_addr copy_addr_path s
          ≡ some (
            (fs.open_file t path).0,
            name,
            if length copy_addr_path == 0 then path else copy_addr_path,
            (fs.open_file t path).1,
          )
  create_temp_mail_file_lem mem time random email copy_addr copy_addr_path user s h fits made =
      let name = mail_file_name time random copy_addr in
      let path = mail_path user (codes "/tmp/") name in
      elim (create_maildir_cases fs mem user s) [
        | inl e ↦ absurd (made e)
        | inr e ↦
            let whole : cut_to full_path_size path ≡ path = take-whole path 357 (
              omega
                (arith, length-append user (codes "/tmp/" ++ take mail_file_name_length name))) in
            create_temp_mail_file-eq fs mem time random email copy_addr copy_addr_path user s h e
            ∙ rw (file_path_lem user (codes "/tmp/") name refl fits) (rw whole refl)
      ]
