-- ===== src/Parser/Strcmpi.antt =====
-- src/lib/parser_utils.c: the machine that compares what it is fed with a string, without regard to
-- case. The memory is given.
use smtp_protos.Prelude.{
  ℕ, ℤ, pos, negsuc, zero, suc, ◌+◌, ◌-◌, List, [], ◌∷◌, Option, none, some, length, set, leb, ◌==◌,
  ◌&&◌, if◌then◌else◌, ◌>>=◌, codes,
}
use smtp_protos.CString.{tolower}
use smtp_protos.Parser.{Action, ParserStateTransition, ParserDefinition, Parser, any, parser_feed}

-- enum string_cmp_event_types
abbrev pub string_cmp_mayeq : ℕ
string_cmp_mayeq = 0

abbrev pub string_cmp_eq : ℕ
string_cmp_eq = 1

abbrev pub string_cmp_neq : ℕ
string_cmp_neq = 2

unfoldable pub parser_utils_strcmpi_event : ℕ → List ℕ
parser_utils_strcmpi_event zero = codes "wait(c)"
parser_utils_strcmpi_event (suc zero) = codes "eq(c)"
parser_utils_strcmpi_event _ = codes "neq(c)"

abbrev pub note : ℕ → Action
note type_of e c = record { type_of = type_of; bytes = set e.bytes 0 c; n = 1 }

abbrev pub may_eq : Action
may_eq = note string_cmp_mayeq

abbrev pub eq : Action
eq = note string_cmp_eq

abbrev pub neq : Action
neq = note string_cmp_neq

-- toupper(3) in the C locale.
unfoldable pub toupper : ℕ → ℕ
toupper c = if leb 97 c && leb c 122 then c - 32 else c

-- tolower or toupper of a char, which is signed: what is above 127 is negative, and no letter of the C
-- locale.
abbrev pub when_char : (ℕ → ℕ) → ℕ → ℤ
when_char to_case c = if leb 128 c then negsuc (255 - c) else pos (to_case c)

abbrev pub transition : ℤ → ℕ → Action → ParserStateTransition
transition when dest act1 = record { when = when; dest = dest; act1 = act1; act2 = none }

-- The state of the place `i` of the string of length `n`.
unfoldable pub letter_state : ℕ → ℕ → ℕ → List ParserStateTransition
letter_state n i c =
    let dest = (if suc i == n then n else suc i) in
    let act = (if suc i == n then eq else may_eq) in
    transition (when_char tolower c) dest act
    ∷ transition (when_char toupper c) dest act
    ∷ transition (pos any) (n + 1) neq
    ∷ []

-- The states from the place `i` on, with the two that are fixed.
unfoldable pub states_from : ℕ → ℕ → List ℕ → List (List ParserStateTransition)
states_from n i [] =
    (transition (pos any) (n + 1) neq ∷ []) ∷ (transition (pos any) (n + 1) neq ∷ []) ∷ []
states_from n i (c ∷ cs) = letter_state n i c ∷ states_from n (suc i) cs

unfoldable pub parser_utils_strcmpi : List ℕ → ParserDefinition
unfolding states_from letter_state
parser_utils_strcmpi s = record {
  states_count = length s + 2;
  states = states_from (length s) 0 s;
  start_state = 0;
}

-- The bytes are fed one by one.
unfoldable pub feed_all : Parser → List ℕ → Option Parser
feed_all p [] = some p
feed_all p (c ∷ cs) = do p' ← parser_feed p c; feed_all p' cs
