-- ===== src/Logger/Tests.antt =====
-- Tests of the logger, and its theorems at a concrete run.
use smtp_protos.Prelude.{
  ℕ, ◌<◌, ◌≡◌, List, [], ◌∷◌, ◌++◌, Option, none, some, arith, length, true, false, ltb, Returns,
  length-replicate, take, if◌then◌else◌, refl, replicate, codes, ℤ, pos, negsuc,
}
use smtp_protos.Selector.{Selector}
use smtp_protos.CString.{c_str, strlen}
use smtp_protos.Logger.{Logger, fd_close_handler}
use smtp_protos.Logger.Setup.{logger_finalize, try_open_log_file}
use smtp_protos.Logger.Print.{logf, log_line, logger_is_enabled_for}
use smtp_protos.Logger.Room.{IsValid, GivesSize, pending}
use smtp_protos.Logger.Flush.{InSync, TakesWithin}
use smtp_protos.Logger.Order.{logf_whole}
use smtp_protos.Logger.Run.{message, writable, run, Went, run_lem}
use smtp_protos.Logger.Ends.{logger_finalize_lem}

-- A table of eight slots, with the log file 5 in its slot.
abbrev table : Selector ℕ ℕ
table = record {
  fds =
      none
      ∷ none
      ∷ none
      ∷ none
      ∷ none
      ∷ some (record { fd = 5; interest = 0; handler = 7; data_of = 0 })
      ∷ none
      ∷ none
      ∷ [];
  max_fd = 5;
  master_r = λ _. false;
  master_w = λ _. false;
}

abbrev started : Logger ℕ ℕ
started = record {
  buffer = replicate 4096 0;
  buffer_start = 0;
  buffer_length = 0;
  buffer_capacity = 4096;
  log_file_fd = pos 5;
  selector = some table;
  log_stream = false;
  log_level = 0;
  file = [];
  console = [];
}

abbrev fresh_memory : ℕ → Option (List ℕ)
fresh_memory n = some (replicate n 0)

-- A slow disk takes at most four bytes.
abbrev slow : ℕ → ℤ
slow n = pos (if ltb 4 n then 4 else n)

abbrev stamp : List ℕ
stamp = codes "2023-11-21T10:00:00"

fresh_memory-GivesSize : GivesSize fresh_memory
fresh_memory-GivesSize n m e = let q : replicate n 0 ≡ m = cc in rw (← q) (length-replicate n 0)

slow_takes : TakesWithin slow
slow_takes n = ground arith

started-IsValid : IsValid started
started-IsValid = record {
  sized = length-replicate 4096 0;
  at_least = omega arith;
  at_most = omega arith;
  room = omega arith;
}

started_sync : InSync started
started_sync =
    (omega arith, (record { fd = 5; interest = 0; handler = 7; data_of = 0 }, refl, refl))

enabled : logger_is_enabled_for 1 started ≡ true
unfolding logger_is_enabled_for
enabled = refl

short : length (log_line stamp 1 (codes "up")) < 512
unfolding log_line
short = omega arith

logf_whole_example :
    Returns
      (logf fresh_memory slow stamp 1 (codes "up") started)
      (λ l'. l'.file ++ pending l' ≡ ([] ++ pending started) ++ log_line stamp 1 (codes "up"))
logf_whole_example =
    logf_whole fresh_memory fresh_memory-GivesSize slow slow_takes stamp 1 (codes "up") started
      started-IsValid started_sync enabled refl (λ n e. cc) (omega arith) (omega arith) short

run_lem_example :
    Returns
      (run
        (message fresh_memory slow stamp 1 (codes "up")
          ∷ writable slow
          ∷ message fresh_memory slow stamp 2 (codes "down")
          ∷ [])
        started)
      (Went
        (message fresh_memory slow stamp 1 (codes "up")
          ∷ writable slow
          ∷ message fresh_memory slow stamp 2 (codes "down")
          ∷ [])
        started)
run_lem_example =
    run_lem
      (message fresh_memory slow stamp 1 (codes "up")
        ∷ writable slow
        ∷ message fresh_memory slow stamp 2 (codes "down")
        ∷ [])
      started
      (
        (fresh_memory-GivesSize, slow_takes),
        (slow_takes, ((fresh_memory-GivesSize, slow_takes), tt)),
      )
      started-IsValid started_sync

levels :
    log_line stamp 4 (codes "disk")
    ≡ codes "2023-11-21T10:00:00 [ERROR]" ++ (9 ∷ codes "disk") ++ 10 ∷ []
unfolding log_line
levels = refl

logger_finalize_lem_example :
    Returns
      (logger_finalize (λ (k : ℕ) (l : Logger ℕ ℕ). fd_close_handler (λ n. pos n) l) started)
      (λ (l', t).
        (l'.file ≡ [] ++ take 0 started.buffer)
        × (started.buffer_start ≡ 0 → l'.file ≡ [] ++ pending started)
        × (l'.log_file_fd ≡ negsuc 0)
        × (l'.buffer ≡ [])
        × (l'.buffer_length ≡ 0)
        × (l'.selector ≡ none))
logger_finalize_lem_example =
    logger_finalize_lem (λ (k : ℕ) (l : Logger ℕ ℕ). fd_close_handler (λ n. pos n) l) (λ n. pos n)
      started table 5 (record { fd = 5; interest = 0; handler = 7; data_of = 0 }) started-IsValid
      refl refl (omega arith) refl refl (λ k. refl)

-- Two bytes have been written: at the end the first four of the memory are written, not the four
-- that wait.
abbrev half_written : Logger ℕ ℕ
half_written = record started {
  buffer = codes "abcdefgh";
  buffer_start = 2;
  buffer_length = 4;
  buffer_capacity = 8;
  file = codes "ab";
}

wrong_end :
    fd_close_handler (λ n. pos n) half_written
    ≡ some (record half_written {
      buffer_start = 0;
      buffer_length = 0;
      log_file_fd = negsuc 0;
      file = codes "ababcd";
    })
unfolding fd_close_handler
wrong_end = refl

file_name :
    try_open_log_file (λ path. pos (length path)) (codes "21-11-2023") (some []) ≡ (pos 20, true)
unfolding try_open_log_file strlen c_str
file_name = refl
