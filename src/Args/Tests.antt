-- ===== src/Args/Tests.antt =====
-- Runs of src/lib/args.c.
use smtp_protos.Prelude.{ℕ, List, [], ◌∷◌, length, false, Returns, codes, pos}
use smtp_protos.Args.{Strtol, parse_args}
use smtp_protos.Args.Bounds.{IsValid, Holds, parse_args_lem}

-- Every argument is the number 2525.
abbrev fixed : List ℕ → Strtol
fixed s = record { value = pos 2525; end_at = length s; erange = false }

parse_args_lem_example :
    Returns
      (parse_args fixed ((b'p', codes "2525") ∷ (b'u', codes "ann:pw") ∷ []) [])
      (Holds IsValid)
parse_args_lem_example =
    parse_args_lem fixed ((b'p', codes "2525") ∷ (b'u', codes "ann:pw") ∷ []) []
