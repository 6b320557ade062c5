-- ===== src/Maildir/Dirs.antt =====
-- src/lib/maildir.c: the directories of a user.
use smtp_protos.Prelude.{
  ℕ, ◌+◌, ◌≤◌, ◌≡◌, ◌⊎◌, List, [], ◌∷◌, ◌++◌, none, some, arith, length, Bool, true, false, take,
  drop, Bool-cases, Option-cases, inl, inr, refl, All, length-append, ◌∙◌, codes,
}
use smtp_protos.Prelude.{take-whole}
use smtp_protos.Maildir.{
  FileSystem, create_nonexistent_dir, create_dirs, create_maildir, cut_to, dir_of, maildir_len,
}

-- What the calls are documented to do.
pub record IsLawful (fs : FileSystem) : Type 0 where
  pub made : (s t : fs.State) (p : List ℕ) → fs.mkdir s p ≡ some t → fs.stat t p ≡ true
  pub stays :
      (s t : fs.State) (p q : List ℕ)
      → fs.mkdir s p ≡ some t
      → fs.stat s q ≡ true
      → fs.stat t q ≡ true
  pub content-mkdir :
      (s t : fs.State) (p q : List ℕ) → fs.mkdir s p ≡ some t → fs.content t q ≡ fs.content s q
  pub content-open :
      (s : fs.State) (p q : List ℕ) → fs.content (fs.open_file s p).1 q ≡ fs.content s q
  pub content-send :
      (s t : fs.State) (from to : List ℕ) (limit n : ℕ)
      → fs.send_file s from to limit ≡ some (n, t)
      → (n ≤ limit) × (fs.content t to ≡ take n (fs.content s from) ++ drop n (fs.content s to))

-- The path of a user's directory, whole.
abbrev pub user_path : List ℕ → List ℕ → List ℕ
user_path user inner = codes "./Maildir/" ++ (user ++ inner)

module _ (fs : FileSystem) (lawful : IsLawful fs) where
  -- What a step leaves: the directories that were there are there, and the files are as they were.
  pub record Kept (s t : fs.State) : Type 0 where
    pub dirs : (q : List ℕ) → fs.stat s q ≡ true → fs.stat t q ≡ true
    pub files : (q : List ℕ) → fs.content t q ≡ fs.content s q

  create_lem :
      (path : List ℕ) (s : fs.State)
      → let (done, t) = create_nonexistent_dir fs path s in
        Kept s t × (done ≡ true → fs.stat t path ≡ true)
  unfolding create_nonexistent_dir
  create_lem path s = elim (Bool-cases (fs.stat s path)) [
    | inl e ↦ rw e (record { dirs = λ q h. h; files = λ q. refl }, λ h. e)
    | inr e ↦ rw e (elim (Option-cases (fs.mkdir s path)) [
      | inl f ↦ rw f (record { dirs = λ q h. h; files = λ q. refl }, λ h. cc)
      | inr (t, f) ↦ rw f (
        record {
          dirs = λ q h. lawful.stays s t path q f h;
          files = λ q. lawful.content-mkdir s t path q f;
        },
        λ h. lawful.made s t path f,
      )
    ])
  ]

  -- The steps that make directories one after another, where they succeed, have made them all.
  pub record Made (paths : List (List ℕ)) (s : fs.State) (r : Bool × fs.State) : Type 0 where
    pub kept : Kept s r.1
    pub all : r.0 ≡ true → All (λ p. fs.stat r.1 p ≡ true) paths

  create_dirs_lem : (paths : List (List ℕ)) (s : fs.State) → Made paths s (create_dirs fs paths s)
  unfolding create_dirs
  create_dirs_lem [] s = record {
    kept = record { dirs = λ q h. h; files = λ q. refl };
    all = λ h. tt;
  }
  create_dirs_lem (path ∷ paths) s =
      let (kept, there) = create_lem path s in
      let (done, t) = create_nonexistent_dir fs path s in
      let rest = create_dirs_lem paths t in
      elim (Bool-cases done) [
        | inl e ↦
            let step : create_dirs fs (path ∷ paths) s ≡ create_dirs fs paths t = rw e refl in
            rw step (record {
              kept = record {
                dirs = λ q h. rest.kept.dirs q (kept.dirs q h);
                files = λ q. rest.kept.files q ∙ kept.files q;
              };
              all = λ h. (rest.kept.dirs path (there e), rest.all h);
            })
        | inr e ↦
            let step : create_dirs fs (path ∷ paths) s ≡ (false, t) = rw e refl in
            rw step (record { kept = kept; all = λ h. cc })
      ]

  whole-path :
      (user inner : List ℕ)
      → length user + length inner ≤ 67
      → cut_to maildir_len (dir_of user inner) ≡ user_path user inner
  unfolding dir_of
  whole-path user inner h =
      take-whole (user_path user inner) 77 (omega (arith, length-append user inner))

  -- For a user that leaves room for the directories' names, where create_maildir gives a path it is
  -- the user's, and the directory, with cur, new and tmp in it, is there; in any case no file has
  -- changed, and no directory is gone.
  pub create_maildir_lem :
      (mem : Bool) (user : List ℕ) (s : fs.State)
      → length user ≤ 63
      → let (path, t) = create_maildir fs mem user s in
        Kept s t
        × ((path ≡ none)
            ⊎ ((path ≡ some (user_path user []))
                × All
                    (λ p. fs.stat t p ≡ true)
                    (codes "./Maildir"
                      ∷ user_path user []
                      ∷ user_path user (codes "/cur")
                      ∷ user_path user (codes "/new")
                      ∷ user_path user (codes "/tmp")
                      ∷ [])))
  unfolding create_maildir
  create_maildir_lem mem user s h = rw (whole-path user [] (omega arith)) (
      rw (whole-path user (codes "/cur") (omega arith)) (
        rw (whole-path user (codes "/new") (omega arith)) (
          rw (whole-path user (codes "/tmp") (omega arith)) (
            let dirs =
              codes "./Maildir"
              ∷ user_path user []
              ∷ user_path user (codes "/cur")
              ∷ user_path user (codes "/new")
              ∷ user_path user (codes "/tmp")
              ∷ [] in
            let made = create_dirs_lem dirs s in
            elim (Bool-cases mem) [
              | inr e ↦ rw e (record { dirs = λ q k. k; files = λ q. refl }, inl refl)
              | inl e ↦ elim (Bool-cases (create_dirs fs dirs s).0) [
                | inl f ↦ rw e (rw f (made.kept, inr (refl, made.all f)))
                | inr f ↦ rw e (rw f (made.kept, inl refl))
              ]
            ]))))
