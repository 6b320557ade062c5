-- ===== src/Parser/Verdict.antt =====
-- src/lib/parser_utils.c: what the machine says of the bytes that it has been fed.
use smtp_protos.Prelude.{
  ℕ, zero, suc, ◌+◌, ◌≤◌, ◌<◌, ◌≡◌, ◌≢◌, List, [], ◌∷◌, some, arith, length, Bool, true, false, leb,
  ◌==◌, ◌&&◌, ◌||◌, Returns, drop, if◌then◌else◌, Bool-cases, inl, inr, refl, Returns-mono, All,
  All-mono, replicate, ap, sym, ◌∙◌, pos,
}
use smtp_protos.Prelude.{get_elem?}
use smtp_protos.CString.{tolower, strcasecmp_eq, strncasecmp_eq}
use smtp_protos.Parser.{
  ParserEvent, Action, ParserStateTransition, Parser, any, is_matched, find_match, fire,
  parser_init, parser_feed, parser_no_classes,
}
use smtp_protos.Parser.Strcmpi.{
  string_cmp_mayeq, string_cmp_eq, string_cmp_neq, eq, may_eq, neq, toupper, transition,
  letter_state, states_from, parser_utils_strcmpi, feed_all,
}

-- The bytes are a prefix of the string, but for case.
abbrev agrees : List ℕ → List ℕ → Bool
agrees [] s = true
agrees (c ∷ bs) [] = false
agrees (c ∷ bs) (d ∷ ds) = tolower c == tolower d && agrees bs ds

abbrev judged : List ℕ → List ℕ → ℕ
judged s bs =
    if agrees bs s
    then if length bs == length s then string_cmp_eq else string_cmp_mayeq
    else string_cmp_neq

same_letter : (c d : ℕ) → (c == tolower d || c == toupper d) ≡ (tolower c == tolower d)
unfolding tolower toupper
same_letter c d = ground arith

tolower-le : (d : ℕ) → d ≤ 127 → tolower d ≤ 255
unfolding tolower
tolower-le d h = ground arith

toupper-le : (d : ℕ) → d ≤ 127 → toupper d ≤ 255
unfolding toupper
toupper-le d h = ground arith

-- What a byte does in the state of a letter.
abbrev Lands : ℕ → ℕ → ℕ → ℕ → ParserStateTransition → Type 0
Lands n i c d t =
    (t.dest ≡ (if tolower c == tolower d then suc i else n + 1))
    × ((e : ParserEvent)
        → (t.act1 e c).type_of ≡ (
            if tolower c == tolower d
            then if suc i == n then string_cmp_eq else string_cmp_mayeq
            else string_cmp_neq))

abbrev on_dest : ℕ → ℕ → ℕ
on_dest n i = if suc i == n then n else suc i

abbrev on_act : ℕ → ℕ → Action
on_act n i = if suc i == n then eq else may_eq

dest_lem : (n i : ℕ) → (if suc i == n then n else suc i) ≡ suc i
dest_lem n i = ground arith

act_lem :
    (b : Bool) (e : ParserEvent) (c : ℕ)
    → ((if b then eq else may_eq) e c).type_of ≡ (if b then string_cmp_eq else string_cmp_mayeq)
act_lem true e c = refl
act_lem false e c = refl

letter_lem :
    (n i c d : ℕ)
    → d ≤ 127
    → (t : ParserStateTransition) × (find_match 0 c (letter_state n i d) ≡ some t) × Lands n i c d t
unfolding find_match letter_state is_matched
letter_lem n i c d h =
    let ascii : leb 128 d ≡ false = ground arith in
    let small : leb (tolower d) 255 ≡ true = ground (arith, tolower-le d h) in
    let large : leb (toupper d) 255 ≡ true = ground (arith, toupper-le d h) in
    elim (Bool-cases (c == tolower d)) [
      | inl e ↦
          let same : (tolower c == tolower d) ≡ true = sym (same_letter c d) ∙ (rw e refl) in
          (
            transition (pos (tolower d)) (on_dest n i) (on_act n i),
            rw (find_match, ascii, small, e) refl,
            rw same (dest_lem n i, λ v. act_lem (suc i == n) v c),
          )
      | inr e ↦ elim (Bool-cases (c == toupper d)) [
        | inl f ↦
            let same : (tolower c == tolower d) ≡ true = sym (same_letter c d) ∙ (rw (e, f) refl) in
            (
              transition (pos (toupper d)) (on_dest n i) (on_act n i),
              rw (find_match, ascii, small, e, large, f) refl,
              rw same (dest_lem n i, λ v. act_lem (suc i == n) v c),
            )
        | inr f ↦
            let same : (tolower c == tolower d) ≡ false =
              sym (same_letter c d) ∙ (rw (e, f) refl) in
            (
              transition (pos any) (n + 1) neq,
              rw (find_match, ascii, small, e, large, f) refl,
              rw same (refl, λ v. refl),
            )
      ]
    ]

feed_lem :
    (p : Parser) (c : ℕ) (ts : List ParserStateTransition) (t : ParserStateTransition)
    → get_elem? p.classes c ≡ some 0
    → get_elem? p.def.states p.state ≡ some ts
    → find_match 0 c ts ≡ some t
    → parser_feed p c ≡ some (fire p c (some t))
unfolding parser_feed
feed_lem p c ts t e f g = rw (e, f, g) refl

-- The rest of the table.
drop-cons :
    {A : Type 0} (xs : List A) (i : ℕ) (y : A) (ys : List A)
    → drop i xs ≡ y ∷ ys
    → (get_elem? xs i ≡ some y) × (drop (suc i) xs ≡ ys)
drop-cons [] zero y ys e = cc
drop-cons [] (suc i) y ys e = cc
drop-cons (x ∷ xs) zero y ys e = (cc, cc)
drop-cons (x ∷ xs) (suc i) y ys e = drop-cons xs i y ys e

abbrev sink : ℕ → List ParserStateTransition
sink n = transition (pos any) (n + 1) neq ∷ []

sink_lem : (n c : ℕ) → find_match 0 c (sink n) ≡ some (transition (pos any) (n + 1) neq)
unfolding find_match is_matched
sink_lem n c = refl

-- The state for strings that differ.
sink_there :
    (n i : ℕ) (rest : List ℕ) (xs : List (List ParserStateTransition))
    → drop i xs ≡ states_from n i rest
    → n ≡ i + length rest
    → get_elem? xs (n + 1) ≡ some (sink n)
unfolding states_from
sink_there n i [] xs e h =
    let (f, g) = drop-cons xs i (sink n) (sink n ∷ []) e in
    let (f', g') = drop-cons xs (suc i) (sink n) [] g in
    let here : n + 1 ≡ suc i = omega arith in ap (λ j. get_elem? xs j) here ∙ f'
sink_there n i (c ∷ rest) xs e h =
    let (f, g) = drop-cons xs i (letter_state n i c) (states_from n (suc i) rest) e in
    sink_there n (suc i) rest xs g (omega arith)

get_elem?-replicate : (size c v : ℕ) → c < size → get_elem? (replicate size v) c ≡ some v
unfolding replicate
get_elem?-replicate zero c v h = absurd (omega arith)
get_elem?-replicate (suc size) zero v h = refl
get_elem?-replicate (suc size) (suc c) v h = get_elem?-replicate size c v (omega arith)

no_class : (c : ℕ) → c < 255 → get_elem? parser_no_classes c ≡ some 0
unfolding parser_no_classes
no_class c h = get_elem?-replicate 255 c 0 h

-- Once the strings differ they do so for good.
sunk :
    (bs : List ℕ) (p : Parser) (n : ℕ)
    → All (λ c. c < 255) bs
    → p.classes ≡ parser_no_classes
    → p.state ≡ n + 1
    → get_elem? p.def.states (n + 1) ≡ some (sink n)
    → (p.e1.type_of ≡ string_cmp_neq)
    → Returns (feed_all p bs) (λ q. q.e1.type_of ≡ string_cmp_neq)
unfolding feed_all fire
sunk [] p n h k s g t = t
sunk (c ∷ bs) p n h k s g t =
    rw
      (feed_lem p c (sink n) (transition (pos any) (n + 1) neq) (rw k (no_class c h.0)) (rw s g)
        (sink_lem n c))
      (sunk bs (fire p c (some (transition (pos any) (n + 1) neq))) n h.1 k refl g refl)

judged_same :
    (c d : ℕ) (bs ds : List ℕ)
    → (tolower c == tolower d) ≡ true
    → judged (d ∷ ds) (c ∷ bs) ≡ judged ds bs
judged_same c d bs ds x = ground arith

judged_other :
    (c d : ℕ) (bs ds : List ℕ)
    → (tolower c == tolower d) ≡ false
    → judged (d ∷ ds) (c ∷ bs) ≡ string_cmp_neq
judged_other c d bs ds x = rw x refl

judged_end :
    (n i : ℕ) (ds : List ℕ)
    → n ≡ i + suc (length ds)
    → (if suc i == n then string_cmp_eq else string_cmp_mayeq) ≡ judged ds []
judged_end n i ds m = ground arith

fed :
    (bs : List ℕ) (p : Parser) (n i : ℕ) (rest : List ℕ)
    → All (λ c. c < 255) bs
    → All (λ d. d ≤ 127) rest
    → p.classes ≡ parser_no_classes
    → p.state ≡ i
    → drop i p.def.states ≡ states_from n i rest
    → n ≡ i + length rest
    → (bs ≡ [] → p.e1.type_of ≡ judged rest [])
    → Returns (feed_all p bs) (λ q. q.e1.type_of ≡ judged rest bs)
unfolding feed_all fire states_from
fed [] p n i rest h k l s e m t = t refl
fed (c ∷ bs) p n i [] h k l s e m t =
    let (f, g) = drop-cons p.def.states i (sink n) (sink n ∷ []) e in
    rw
      (feed_lem p c (sink n) (transition (pos any) (n + 1) neq) (rw l (no_class c h.0)) (rw s f)
        (sink_lem n c))
      (sunk bs (fire p c (some (transition (pos any) (n + 1) neq))) n h.1 l refl
        (sink_there n i [] p.def.states e m) refl)
fed (c ∷ bs) p n i (d ∷ ds) h k l s e m t =
    let (f, g) = drop-cons p.def.states i (letter_state n i d) (states_from n (suc i) ds) e in
    let (u, v, w) = letter_lem n i c d k.0 in
    rw (feed_lem p c (letter_state n i d) u (rw l (no_class c h.0)) (rw s f) v)
      (elim (Bool-cases (tolower c == tolower d)) [
        | inl x ↦ rw (judged_same c d bs ds x) (
            fed bs (fire p c (some u)) n (suc i) ds h.1 k.1 l (rw x at w.0) g (omega arith)
              (λ _. (rw x at (w.1 p.e1)) ∙ judged_end n i ds m))
        | inr x ↦ rw (judged_other c d bs ds x) (
            sunk bs (fire p c (some u)) n h.1 l (rw x at w.0)
              (sink_there n (suc i) ds p.def.states g (omega arith)) (rw x at (w.1 p.e1)))
      ])

-- On strings without a NUL the machine's verdict is that of the C library.
abbrev pub verdict : List ℕ → List ℕ → ℕ
verdict s bs =
    if strcasecmp_eq bs s
    then string_cmp_eq
    else if strncasecmp_eq bs s (length bs)
    then string_cmp_mayeq
    else string_cmp_neq

agrees-strncasecmp_eq :
    (bs s : List ℕ) → All (λ c. 0 < c) bs → strncasecmp_eq bs s (length bs) ≡ agrees bs s
unfolding strncasecmp_eq
agrees-strncasecmp_eq [] s h = refl
agrees-strncasecmp_eq (c ∷ bs) [] h = ground (arith, h.0)
agrees-strncasecmp_eq (c ∷ bs) (d ∷ ds) h = ground (arith, h.0, agrees-strncasecmp_eq bs ds h.1)

agrees-strcasecmp_eq :
    (bs s : List ℕ)
    → All (λ c. 0 < c) bs
    → All (λ c. 0 < c) s
    → strcasecmp_eq bs s ≡ (agrees bs s && length bs == length s)
unfolding strcasecmp_eq
agrees-strcasecmp_eq [] [] h k = refl
agrees-strcasecmp_eq [] (d ∷ ds) h k = ground (arith, k.0)
agrees-strcasecmp_eq (c ∷ bs) [] h k = ground (arith, h.0)
agrees-strcasecmp_eq (c ∷ bs) (d ∷ ds) h k = ground (arith, h.0, agrees-strcasecmp_eq bs ds h.1 k.1)

verdict-judged :
    (s bs : List ℕ) → All (λ c. 0 < c) bs → All (λ c. 0 < c) s → judged s bs ≡ verdict s bs
verdict-judged s bs h k =
    rw (agrees-strcasecmp_eq bs s h k, agrees-strncasecmp_eq bs s h)
      (elim (Bool-cases (agrees bs s)) [ inl e ↦ rw e refl | inr e ↦ rw e refl ])

abbrev pub IsText : List ℕ → Type 0
IsText bs = All (λ c. (0 < c) × (c < 255)) bs

text_above : (bs : List ℕ) → IsText bs → All (λ c. 0 < c) bs
text_above bs h = All-mono bs (λ c p. p.0) h

-- The string holds no char above 127, which would be negative.
abbrev pub IsAscii : List ℕ → Type 0
IsAscii s = All (λ c. (0 < c) × (c < 128)) s

ascii_above : (s : List ℕ) → IsAscii s → All (λ c. 0 < c) s
ascii_above s h = All-mono s (λ c p. p.0) h

ascii_le : (c : ℕ) → (0 < c) × (c < 128) → c ≤ 127
ascii_le c h = let small : c < 128 = h.1 in omega arith

-- The parser of a string of ASCII, without a NUL, fed one or more bytes without a NUL or the byte 255,
-- returns, and its last event is that the bytes are the string where strcasecmp says so, that they may become it where they
-- are a prefix of it for strncasecmp, and otherwise that they are not it.
pub parser_utils_strcmpi_lem :
    (s bs : List ℕ)
    → bs ≢ []
    → IsText bs
    → IsAscii s
    → Returns
        (feed_all (parser_init parser_no_classes (parser_utils_strcmpi s)) bs)
        (λ q. q.e1.type_of ≡ verdict s bs)
unfolding parser_init parser_utils_strcmpi
parser_utils_strcmpi_lem s bs n h k =
    Returns-mono _ _ (feed_all (parser_init parser_no_classes (parser_utils_strcmpi s)) bs)
      (λ q e. e ∙ verdict-judged s bs (text_above bs h) (ascii_above s k))
      (fed bs (parser_init parser_no_classes (parser_utils_strcmpi s)) (length s) 0 s
        (All-mono bs (λ c p. p.1) h) (All-mono s (λ c p. ascii_le c p) k) refl refl refl
        (omega arith) (λ e. absurd (n e)))
