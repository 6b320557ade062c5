-- ===== src/Parser.antt =====
-- src/lib/parser.c: the engine of parsers that are tables of transitions. A character class is a bit
-- from the ninth on; a read outside a table is a fault.
pub mod Strcmpi
pub mod Verdict
mod Tests
use smtp_protos.Prelude.{
  ℕ, zero, suc, ◌+◌, ◌-◌, ◌*◌, ◌/◌, ◌%◌, ◌^◌, ◌≤◌, ◌<◌, ◌≡◌, ◌≢◌, ◌↔◌, ◌⊎◌, List, [], ◌∷◌, ◌++◌,
  Option, none, some, arith, length, set, Bool, true, false, ltb, leb, ◌==◌, ◌&&◌, ◌||◌, not,
  length-set, length-take, Returns, Returns-some, get_or, length-replicate, take, drop,
  if◌then◌else◌, ◌>>=◌, ◌>>◌, Bool-cases, Option-cases, inl, inr, refl, Returns-bind, Returns-mono,
  All, All-mono, filled, replicate, length-filled, set-filled, set-filled_end, set-replicate,
  length-append, ap, sym, ◌∙◌, append-nil, append_assoc, store, codes, ℤ, pos, negsuc, map, assert,
  dec_lt, ℕ_discrete,
}
use smtp_protos.Prelude.{get_elem?}

-- struct parser_event; `next` is in the parser.
pub record ParserEvent : Type 0 where
  pub type_of : ℕ
  pub bytes : List ℕ
  pub n : ℕ

abbrev pub Action : Type 0
Action = ParserEvent → ℕ → ParserEvent

pub record ParserStateTransition : Type 0 where
  pub when : ℤ
  pub dest : ℕ
  pub act1 : Action
  pub act2 : Option Action

-- `states` with `states_n`.
pub record ParserDefinition : Type 0 where
  pub states_count : ℕ
  pub states : List (List ParserStateTransition)
  pub start_state : ℕ

-- `chained` tells whether the first event is followed by the second.
pub record Parser : Type 0 where
  pub classes : List ℕ
  pub def : ParserDefinition
  pub state : ℕ
  pub e1 : ParserEvent
  pub e2 : ParserEvent
  pub chained : Bool

-- ANY
abbrev pub any : ℕ
any = 2 ^ 9

abbrev pub blank_event : ParserEvent
blank_event = record { type_of = 0; bytes = 0 ∷ 0 ∷ 0 ∷ []; n = 0 }

-- If malloc gives the memory.
unfoldable pub parser_init : List ℕ → ParserDefinition → Parser
parser_init classes def = record {
  classes = classes;
  def = def;
  state = def.start_state;
  e1 = blank_event;
  e2 = blank_event;
  chained = false;
}

unfoldable pub parser_reset : Parser → Parser
parser_reset p = record p { state = p.def.start_state }

-- type & when, for numbers of `w` bits.
unfoldable pub have_common_bit : ℕ → ℕ → ℕ → Bool
have_common_bit zero a b = false
have_common_bit (suc w) a b = (a % 2 == 1 && b % 2 == 1) || have_common_bit w (a / 2) (b / 2)

-- `c` is a byte, which no negative number equals.
unfoldable pub is_matched : ℕ → ℕ → ℤ → Bool
unfolding have_common_bit
is_matched type_of c (negsuc _) = false
is_matched type_of c (pos when) =
    if leb when 255
    then c == when
    else if when == any
    then true
    else have_common_bit 32 type_of when

-- The first transition that matches.
unfoldable pub find_match : ℕ → ℕ → List ParserStateTransition → Option ParserStateTransition
find_match type_of c [] = none
find_match type_of c (t ∷ ts) =
    if is_matched type_of c t.when then some t else find_match type_of c ts

abbrev pub is_some : Option Action → Bool
is_some none = false
is_some (some f) = true

abbrev pub run_second : Option Action → ParserEvent → ℕ → ParserEvent
run_second none e c = e
run_second (some f) e c = f e c

unfoldable pub fire : Parser → ℕ → Option ParserStateTransition → Parser
fire p c none = record p { chained = false }
fire p c (some t) = record p {
  e1 = t.act1 p.e1 c;
  e2 = run_second t.act2 p.e2 c;
  chained = is_some t.act2;
  state = t.dest;
}

-- The events are in the parser.
unfoldable pub parser_feed : Parser → ℕ → Option Parser
unfolding find_match fire
parser_feed p c = do
  type_of ← get_elem? p.classes c
  state ← get_elem? p.def.states p.state
  some (fire p c (find_match type_of c state))

-- The array has 255 places, one less than there are bytes.
unfoldable pub parser_no_classes : List ℕ
parser_no_classes = replicate 255 0
