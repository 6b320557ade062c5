-- ===== src/Maildir/Tests.antt =====
-- Tests of the mail directories, over a file system that remembers its directories and files.
use smtp_protos.Prelude.{
  length-take, ℕ, ◌+◌, ◌≤◌, ◌<◌, ◌≡◌, ◌≢◌, ◌↔◌, ◌⊎◌, List, [], ◌∷◌, ◌++◌, none, some, arith, length,
  Bool, true, false, Returns, take, drop, if◌then◌else◌, ◌>>=◌, refl, codes, pos,
}
use smtp_protos.CString.{strchr, index_of, strcmp_eq, strcmp_eq_refl, c_str}
use smtp_protos.Maildir.{
  FileSystem, mail_file_name_length, rand_max, rand_str, strtok_at, dir_of, mail_file_name,
  send_limit, create_dirs, create_maildir, create_temp_mail_file, copy_temp_to_new_single,
  get_or_create_maildir,
}
use smtp_protos.Maildir.Dirs.{IsLawful}
use smtp_protos.Maildir.Names.{Random, rand_str_lem, create_temp_mail_file_fault_iff}
use smtp_protos.Maildir.Delivery.{Works, opened, mail_path, copy_temp_to_new_single_lem}

record Disk : Type 0 where
  dirs : List ℕ → Bool
  files : List ℕ → List ℕ

abbrev with_dir : Disk → List ℕ → Disk
with_dir s p = record s { dirs = λ q. if strcmp_eq q p then true else s.dirs q }

abbrev with_copy : Disk → List ℕ → List ℕ → ℕ → Disk
with_copy s from to n = record s {
  files = λ q. if strcmp_eq q to then take n (s.files from) ++ drop n (s.files to) else s.files q;
}

abbrev disk : FileSystem
disk = record {
  State = Disk;
  stat = λ s p. s.dirs p;
  mkdir = λ s p. some (with_dir s p);
  open_file = λ s p. (pos 7, s);
  send_file = λ s from to limit.
      let n = length (take limit (s.files from)) in some (n, with_copy s from to n);
  content = λ s p. s.files p;
}

disk-IsLawful : IsLawful disk
disk-IsLawful = record {
  made = λ s t p e. let q : with_dir s p ≡ t = cc in rw (← q) (rw (strcmp_eq_refl p) refl);
  stays = λ s t p q e h. let d : with_dir s p ≡ t = cc in rw (← d) (ground arith);
  content-mkdir = λ s t p q e. let d : with_dir s p ≡ t = cc in rw (← d) refl;
  content-open = λ s p q. refl;
  content-send = λ s t from to limit n e.
      let k : length (take limit (s.files from)) ≡ n = cc in
      let d : with_copy s from to (length (take limit (s.files from))) ≡ t = cc in
      (
        omega (arith, length-take limit (s.files from)),
        rw (← d) (rw (strcmp_eq_refl to) (rw k refl)),
      );
}

disk-Works : Works disk disk-IsLawful
disk-Works = record { opens = λ s p. (7, refl) }

abbrev fresh : Disk
fresh = record {
  dirs = λ p. false;
  files = λ p. if strcmp_eq p (codes "./Maildir/ann/tmp/17_a") then codes "DATA" else [];
}

bob : strtok_at (codes "bob@smtpd.com") ≡ some (codes "bob")
unfolding strtok_at
bob = refl

bob_path : (create_maildir disk true (codes "bob") fresh).0 ≡ some (codes "./Maildir/bob")
unfolding create_maildir create_dirs dir_of strcmp_eq
bob_path = refl

bob_made : (create_maildir disk true (codes "bob") fresh).0 ≢ none
bob_made e = cc (bob_path)

-- After the four bytes of the message are copied.
abbrev delivered : Disk
delivered =
    with_copy (create_maildir disk true (codes "bob") fresh).1 (codes "./Maildir/ann/tmp/17_a")
      (mail_path (codes "bob") (codes "/new/") (codes "17_a")) 4

sent :
    disk.send_file
      (opened disk disk-IsLawful
        (codes "./Maildir/ann/tmp/17_a")
        (mail_path (codes "bob") (codes "/new/") (codes "17_a"))
        (create_maildir disk true (codes "bob") fresh).1)
      (codes "./Maildir/ann/tmp/17_a")
      (mail_path (codes "bob") (codes "/new/") (codes "17_a"))
      send_limit
    ≡ some (4, delivered)
unfolding create_maildir create_dirs dir_of strcmp_eq
sent = refl

copy_temp_to_new_single_lem_example :
    (copy_temp_to_new_single disk true
        (codes "bob@smtpd.com")
        (codes "17_a")
        (codes "./Maildir/ann/tmp/17_a")
        fresh
      ≡ some delivered)
    × (delivered.files (mail_path (codes "bob") (codes "/new/") (codes "17_a"))
        ≡ take 4 (fresh.files (codes "./Maildir/ann/tmp/17_a"))
          ++ drop 4 (fresh.files (mail_path (codes "bob") (codes "/new/") (codes "17_a"))))
    × (length (fresh.files (codes "./Maildir/ann/tmp/17_a")) ≤ 4
        → fresh.files (mail_path (codes "bob") (codes "/new/") (codes "17_a")) ≡ []
        → delivered.files (mail_path (codes "bob") (codes "/new/") (codes "17_a"))
          ≡ fresh.files (codes "./Maildir/ann/tmp/17_a"))
copy_temp_to_new_single_lem_example =
    copy_temp_to_new_single_lem disk disk-IsLawful true (codes "bob@smtpd.com") (codes "17_a")
      (codes "./Maildir/ann/tmp/17_a") (codes "bob") fresh delivered 4 disk-Works bob (omega arith)
      bob_made sent

create_temp_mail_file_fault_iff_example :
    (create_temp_mail_file disk true
        (codes "1700000000")
        (codes "abcdefghij")
        (codes "bob@smtpd.com")
        []
        []
        fresh
      ≡ none)
    ↔ (((create_maildir disk true (codes "bob") fresh).0 ≡ none)
        ⊎ (62
            < length (codes "bob")
              + length (
                  take mail_file_name_length
                    (mail_file_name (codes "1700000000") (codes "abcdefghij") []))))
create_temp_mail_file_fault_iff_example =
    create_temp_mail_file_fault_iff disk true (codes "1700000000") (codes "abcdefghij")
      (codes "bob@smtpd.com") [] [] (codes "bob") fresh bob

rand_str_lem_example : Returns (rand_str (0 ∷ rand_max ∷ [])) (Random (0 ∷ rand_max ∷ []))
rand_str_lem_example = rand_str_lem (0 ∷ rand_max ∷ []) (omega arith)

random_end : rand_str (0 ∷ 1073741824 ∷ rand_max ∷ []) ≡ some (b'0' ∷ b'v' ∷ 0 ∷ [])
unfolding rand_str
random_end = refl

name_size : length (mail_file_name (codes "1700000000") (codes "abcdefghij") []) ≡ 21
unfolding mail_file_name c_str
name_size = refl

old_layout :
    (get_or_create_maildir disk true (codes "bob@smtpd.com") fresh >>= λ r. some r.0)
    ≡ some (some (codes "mail/smtpd.com/bob"))
unfolding get_or_create_maildir strcmp_eq c_str strchr index_of
old_layout = refl
