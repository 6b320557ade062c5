-- ===== src/Maildir.antt =====
-- src/lib/maildir.c: the directories and files of mails. The file system is the interface `FileSystem`,
-- what rand(3) and the time give are arguments. A heap string is its bytes, which must stay, with a
-- NUL, within the size that was asked for: a longer one is a fault. What is logged is left out.
pub mod Dirs
pub mod Names
pub mod Delivery
mod Tests
use smtp_protos.Prelude.{
  ℕ, zero, suc, ◌+◌, ◌-◌, ◌*◌, ◌/◌, ◌%◌, ◌^◌, ◌≤◌, ◌<◌, ◌≡◌, ◌≢◌, ◌↔◌, ◌⊎◌, List, [], ◌∷◌, ◌++◌,
  Option, none, some, arith, length, set, Bool, true, false, ltb, leb, ◌==◌, ◌&&◌, ◌||◌, not,
  length-set, length-take, Returns, Returns-some, get_or, length-replicate, take, drop,
  if◌then◌else◌, ◌>>=◌, ◌>>◌, Bool-cases, Option-cases, inl, inr, refl, Returns-bind, Returns-mono,
  All, All-mono, filled, replicate, length-filled, set-filled, set-filled_end, set-replicate,
  length-append, ap, sym, ◌∙◌, append-nil, append_assoc, store, codes, ℤ, pos, negsuc, map, assert,
  dec_lt, ℕ_discrete,
}
use smtp_protos.Prelude.{get_elem?}
use smtp_protos.CString.{c_str, strchr}

abbrev pub mail_file_name_length : ℕ
mail_file_name_length = 24

abbrev pub mail_dir_size : ℕ
mail_dir_size = 7

abbrev pub domain_name_size : ℕ
domain_name_size = 255

abbrev pub local_user_name_size : ℕ
local_user_name_size = 64

abbrev pub mailbox_inner_dir_size : ℕ
mailbox_inner_dir_size = 3

abbrev pub rand_str_length : ℕ
rand_str_length = 10

-- The calls on files: `mkdir` gives `none` where it fails, `open_file` the descriptor, negative where
-- it fails, and `send_file` copies the first bytes of one file to the front of another: `none` where it
-- fails, else how many it has copied.
pub record FileSystem : Type 1 where
  pub State : Type 0
  pub stat : State → List ℕ → Bool
  pub mkdir : State → List ℕ → Option State
  pub open_file : State → List ℕ → ℤ × State
  pub send_file : State → (from to : List ℕ) → ℕ → Option (ℕ × State)
  pub content : State → List ℕ → List ℕ

-- RAND_MAX
abbrev pub rand_max : ℕ
rand_max = 2147483647

-- The array of 62 characters with its NUL.
abbrev pub charset : List ℕ
charset = codes "0123456789abcdefghijklmnopqrstuvwxyzABCDEFGHIJKLMNOPQRSTUVWXYZ" ++ 0 ∷ []

-- (double)rand() / RAND_MAX * (sizeof charset - 1), cut to a whole number.
unfoldable pub char_index : ℕ → ℕ
char_index r = r * (length charset - 1) / rand_max

-- The bytes for the results of rand.
unfoldable pub rand_str : List ℕ → Option (List ℕ)
unfolding char_index
rand_str [] = some []
rand_str (r ∷ rs) = do c ← get_elem? charset (char_index r); dest ← rand_str rs; some (c ∷ dest)

-- snprintf into `size` bytes.
abbrev pub cut_to : ℕ → List ℕ → List ℕ
cut_to size text = take (size - 1) text

-- strcat to a string in `size` bytes of memory.
unfoldable pub strcat : ℕ → List ℕ → List ℕ → Option (List ℕ)
strcat size dest src = if ltb (length dest + length src) size then some (dest ++ src) else none

-- strtok(s, "@"): the first bytes that are no '@', if there are any.
unfoldable pub until_at : List ℕ → List ℕ
until_at [] = []
until_at (c ∷ cs) = if c == b'@' then [] else c ∷ until_at cs

unfoldable pub strtok_at : List ℕ → Option (List ℕ)
unfolding until_at
strtok_at [] = none
strtok_at (c ∷ cs) = if c == b'@' then strtok_at cs else some (c ∷ until_at cs)

-- "./Maildir/%s" with what follows.
unfoldable pub dir_of : List ℕ → List ℕ → List ℕ
dir_of user inner = codes "./Maildir/" ++ (user ++ inner)

abbrev pub maildir_len : ℕ
maildir_len = 2 + mail_dir_size + 1 + local_user_name_size + 1 + mailbox_inner_dir_size

-- The size of copy_addr_path.
abbrev pub full_path_size : ℕ
full_path_size =
    mail_dir_size + 1 + domain_name_size + 1 + local_user_name_size + 1 + mailbox_inner_dir_size + 1
    + mail_file_name_length + 1

-- INT32_MAX
abbrev pub send_limit : ℕ
send_limit = 2147483647

-- The size of the path of get_or_create_maildir.
abbrev pub old_maildir_size : ℕ
old_maildir_size = mail_dir_size + 1 + domain_name_size + 1 + local_user_name_size

-- The name of the file: a time and random characters, unless it has one.
unfoldable pub mail_file_name : List ℕ → List ℕ → List ℕ → List ℕ
mail_file_name time random copy_addr =
    if length copy_addr == 0
    then cut_to mail_file_name_length (time ++ (b'_' ∷ c_str random))
    else copy_addr

module _ (fs : FileSystem) where
  -- Whether it succeeds, and what is left of the file system.
  unfoldable pub create_nonexistent_dir : List ℕ → fs.State → Bool × fs.State
  create_nonexistent_dir path s =
      if fs.stat s path
      then (true, s)
      else elim (fs.mkdir s path) [ none ↦ (false, s) | some t ↦ (true, t) ]

  -- One directory after another, until one fails.
  unfoldable pub create_dirs : List (List ℕ) → fs.State → Bool × fs.State
  unfolding create_nonexistent_dir
  create_dirs [] s = (true, s)
  create_dirs (path ∷ paths) s =
      let (done, t) = create_nonexistent_dir path s in
      let rest = create_dirs paths t in if done then rest else (false, t)

  -- The path of the user's directory, in `maildir_len` bytes, or NULL. `mem` tells whether malloc
  -- gives them.
  unfoldable pub create_maildir : Bool → List ℕ → fs.State → Option (List ℕ) × fs.State
  create_maildir mem user s =
      let path = λ (inner : List ℕ). cut_to maildir_len (dir_of user inner) in
      let (done, t) =
        create_dirs
          (codes "./Maildir"
            ∷ path []
            ∷ path (codes "/cur")
            ∷ path (codes "/new")
            ∷ path (codes "/tmp")
            ∷ [])
          s in
      if not mem then (none, s) else if done then (some (path []), t) else (none, t)

  -- The descriptor, the name and the full path of the file. Without a directory strcat writes through
  -- NULL.
  unfoldable pub create_temp_mail_file :
      Bool
      → List ℕ
      → List ℕ
      → List ℕ
      → List ℕ
      → List ℕ
      → fs.State
      → Option (ℤ × List ℕ × List ℕ × fs.State)
  create_temp_mail_file mem time random email copy_addr copy_addr_path s = do
    user ← strtok_at email
    let (maildir_path, t) = create_maildir mem user s
    let name = mail_file_name time random copy_addr
    dir ← maildir_path
    tmp ← strcat maildir_len dir (codes "/tmp/")
    path ← strcat maildir_len tmp (take mail_file_name_length name)
    let full_path =
        if length copy_addr_path == 0 then cut_to full_path_size path else copy_addr_path
    let (fd, t') = fs.open_file t path
    some (fd, name, full_path, t')

  -- Both files open; the copy, whose result is not told.
  unfoldable pub copy_file : (from to : List ℕ) → fs.State → fs.State
  copy_file from to s =
      let (new_fd, t) = fs.open_file s to in
      let (temp_file_fd, t') = fs.open_file t from in
      elim new_fd [
        | negsuc _ ↦ t
        | pos _ ↦ elim temp_file_fd [
          | negsuc _ ↦ t'
          | pos _ ↦ elim (fs.send_file t' from to send_limit) [ none ↦ t' | some (_, u) ↦ u ]
        ]
      ]

  -- With the directory of the user, or without.
  unfoldable pub copy_into : List ℕ → List ℕ → Option (List ℕ) → fs.State → Option fs.State
  copy_into temp_file_name temp_file_full_path none t = some t
  copy_into temp_file_name temp_file_full_path (some dir) t = do
    inbox ← strcat maildir_len dir (codes "/new/")
    path ← strcat maildir_len inbox (take mail_file_name_length temp_file_name)
    some (copy_file temp_file_full_path path t)

  unfoldable pub copy_temp_to_new_single :
      Bool → List ℕ → List ℕ → List ℕ → fs.State → Option fs.State
  copy_temp_to_new_single mem email temp_file_name temp_file_full_path s = do
    user ← strtok_at email
    let (maildir_path, t) = create_maildir mem user s
    copy_into temp_file_name temp_file_full_path maildir_path t

  unfoldable pub create_maildir_directory : List ℕ → fs.State → Bool × fs.State
  create_maildir_directory path s =
      if fs.stat s path
      then (true, s)
      else elim (fs.mkdir s path) [ none ↦ (false, s) | some t ↦ (true, t) ]

  -- The calls of create_maildir_directory, until one fails.
  unfoldable pub create_parents : List (List ℕ) → fs.State → Bool × fs.State
  unfolding create_maildir_directory
  create_parents [] s = (true, s)
  create_parents (path ∷ paths) s =
      let (done, t) = create_maildir_directory path s in
      let rest = create_parents paths t in if done then rest else (false, t)

  -- A user that leaves no room for the NUL in `local_user` is a fault.
  unfoldable pub get_or_create_maildir :
      Bool → List ℕ → fs.State → Option (Option (List ℕ) × fs.State)
  unfolding create_parents
  get_or_create_maildir mem email s = if not mem then some (none, s) else elim (strchr email b'@') [
    | none ↦ some (none, s)
    | some i ↦
        let domain = c_str (drop (i + 1) email) in
        let maildir =
          cut_to old_maildir_size (codes "mail/" ++ (domain ++ (b'/' ∷ take i email))) in
        let (done, t) =
          create_parents (codes "mail" ∷ cut_to 100 (codes "mail/" ++ domain) ∷ maildir ∷ []) s in
        if ltb i local_user_name_size then some (if done then some maildir else none, t) else none
  ]

  -- `maildir` is NULL, so that the rest of the function is never run.
  unfoldable pub get_temp_file_fd : List ℕ → List ℕ → fs.State → ℤ × fs.State
  get_temp_file_fd email copy_addr s = (negsuc 0, s)
