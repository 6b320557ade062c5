-- ===== src/Request/Line/RoundTrip.antt =====
-- A command line within the limits is parsed into its verb and its argument.
use smtp_protos.Prelude.{
  ℕ, ◌+◌, ◌-◌, ◌≤◌, ◌<◌, ◌≡◌, ◌≢◌, List, [], ◌∷◌, ◌++◌, some, arith, length, Bool, Returns,
  length-replicate, refl, Returns-mono, All, All-mono, filled, length-filled, set-filled,
  set-filled_end, set-replicate, length-append, ap, ◌∙◌, append-nil, append_assoc,
}
use smtp_protos.CString.{c_str, c_str-filled}
use smtp_protos.Buffer.{Buffer, contents}
use smtp_protos.Buffer.Inv
use smtp_protos.Request.{
  RequestParser, RequestState, request_verb, request_arg, request_cr, request_done, zeroed,
  verb_size, arg_size, request_is_done,
}
use smtp_protos.Request.Line.{request_parser_feed, request_parser_init, request_consume}
use smtp_protos.Request.Line.Bounds.{init-IsValid}
use smtp_protos.Request.Line.Consume.{scan, Follows, consume-Follows}

-- A parser that has read the beginning `v` of a verb.
in_verb : RequestParser → List ℕ → RequestParser
in_verb p v = record p {
  request = record zeroed { verb = filled verb_size 0 v };
  state = request_verb;
  i = length v;
}

-- A parser that has read the verb `v` and the beginning `a` of an argument.
in_arg : RequestParser → List ℕ → List ℕ → RequestParser
in_arg p v a = record p {
  request = record zeroed { verb = filled verb_size 0 v; arg = filled arg_size 0 a };
  state = request_arg;
  i = length a;
}

-- A byte that belongs to a verb.
abbrev pub IsVerbByte : ℕ → Type 0
IsVerbByte c = (c ≢ 0) × (c ≢ b' ') × (c ≢ 13)

-- A byte that belongs to an argument.
abbrev pub IsArgByte : ℕ → Type 0
IsArgByte c = (c ≢ 0) × (c ≢ 13)

init-eq-in_verb : (p : RequestParser) → request_parser_init p ≡ in_verb p []
unfolding request_parser_init in_verb zeroed filled
init-eq-in_verb p = refl

feed_verb_byte :
    (p : RequestParser) (v : List ℕ) (c : ℕ)
    → length v < verb_size - 1
    → IsVerbByte c
    → request_parser_feed (in_verb p v) c ≡ some (in_verb p (v ++ c ∷ []))
unfolding request_parser_feed in_verb
feed_verb_byte p v c h k =
    ground
      (arith, set-filled verb_size 0 v c, length-filled verb_size 0 v, length-append v (c ∷ []))

feed_space :
    (p : RequestParser) (v : List ℕ)
    → length v ≤ verb_size - 1
    → request_parser_feed (in_verb p v) b' ' ≡ some (in_arg p v [])
unfolding request_parser_feed in_verb in_arg zeroed filled
feed_space p v h =
    ground (arith, set-replicate {A = ℕ} arg_size (length v) 0, length-replicate {A = ℕ} arg_size 0)

feed_arg_byte :
    (p : RequestParser) (v a : List ℕ) (c : ℕ)
    → length a < arg_size - 1
    → IsArgByte c
    → request_parser_feed (in_arg p v a) c ≡ some (in_arg p v (a ++ c ∷ []))
unfolding request_parser_feed in_arg
feed_arg_byte p v a c h k =
    ground (arith, set-filled arg_size 0 a c, length-filled arg_size 0 a, length-append a (c ∷ []))

-- Reading the rest of a verb.
scan_verb :
    (p : RequestParser) (v w rest : List ℕ)
    → length v + length w ≤ verb_size - 1
    → All IsVerbByte w
    → scan (in_verb p v) request_verb (w ++ rest) ≡ scan (in_verb p (v ++ w)) request_verb rest
unfolding scan request_is_done in_verb
scan_verb p v [] rest h k = rw (append-nil v)
scan_verb p v (c ∷ w) rest h k = rw (feed_verb_byte p v c (omega arith) k.0) (
    scan_verb p (v ++ c ∷ []) w rest (omega (arith, length-append v (c ∷ []))) k.1
    ∙ ap (λ u. scan (in_verb p u) request_verb rest) (append_assoc v (c ∷ []) w))

scan_arg :
    (p : RequestParser) (v a w rest : List ℕ)
    → length a + length w ≤ arg_size - 1
    → All IsArgByte w
    → scan (in_arg p v a) request_arg (w ++ rest) ≡ scan (in_arg p v (a ++ w)) request_arg rest
unfolding scan request_is_done in_arg
scan_arg p v a [] rest h k = rw (append-nil a)
scan_arg p v a (c ∷ w) rest h k = rw (feed_arg_byte p v a c (omega arith) k.0) (
    scan_arg p v (a ++ c ∷ []) w rest (omega (arith, length-append a (c ∷ []))) k.1
    ∙ ap (λ u. scan (in_arg p v u) request_arg rest) (append_assoc a (c ∷ []) w))

-- The parser once the line with verb `v` and argument `a` has been read.
parsed : RequestParser → List ℕ → List ℕ → RequestParser
parsed p v a = record (in_arg p v a) { state = request_done }

feed_cr :
    (p : RequestParser) (v a : List ℕ)
    → length a ≤ arg_size - 1
    → request_parser_feed (in_arg p v a) 13 ≡ some (record (in_arg p v a) { state = request_cr })
unfolding in_arg request_parser_feed
feed_cr p v a h = ground (arith, set-filled_end arg_size 0 a, length-filled arg_size 0 a)

feed_lf :
    (p : RequestParser) (v a : List ℕ)
    → request_parser_feed (record (in_arg p v a) { state = request_cr }) 10 ≡ some (parsed p v a)
unfolding request_parser_feed parsed
feed_lf p v a = refl

scan_end :
    (p : RequestParser) (v a rest : List ℕ)
    → length a ≤ arg_size - 1
    → scan (in_arg p v a) request_arg (13 ∷ 10 ∷ rest) ≡ some (parsed p v a, request_done, rest)
unfolding scan request_is_done parsed
scan_end p v a rest h = rw (feed_cr p v a h) (rw (feed_lf p v a) (scan_done rest))
  where
    scan_done :
        (r : List ℕ) → scan (parsed p v a) request_done r ≡ some (parsed p v a, request_done, r)
    scan_done [] = refl
    scan_done (x ∷ r) = refl

scan_space :
    (p : RequestParser) (v rest : List ℕ)
    → length v ≤ verb_size - 1
    → scan (in_verb p v) request_verb (b' ' ∷ rest) ≡ scan (in_arg p v []) request_arg rest
unfolding scan request_is_done in_arg
scan_space p v rest h = rw (feed_space p v h)

scan_line :
    (p : RequestParser) (v a rest : List ℕ)
    → length v ≤ verb_size - 1
    → All IsVerbByte v
    → length a ≤ arg_size - 1
    → All IsArgByte a
    → scan (request_parser_init p) request_verb (v ++ (b' ' ∷ (a ++ (13 ∷ 10 ∷ rest))))
      ≡ some (parsed p v a, request_done, rest)
scan_line p v a rest hv kv ha ka = rw (init-eq-in_verb p) (
    scan_verb p [] v (b' ' ∷ (a ++ (13 ∷ 10 ∷ rest))) (omega arith) kv
    ∙ scan_space p v (a ++ (13 ∷ 10 ∷ rest)) hv
    ∙ scan_arg p v [] a (13 ∷ 10 ∷ rest) (omega arith) ka
    ∙ scan_end p v a rest ha)

-- A command line within the limits, wherever it ends in the buffer, is parsed into its verb and
-- its argument: `request_consume` returns `request_done`, and what follows the line stays unread.
pub consume_line :
    (b : Buffer) (p : RequestParser) (v a rest : List ℕ) (errored : Bool)
    → Inv.IsValid b
    → contents b ≡ v ++ (b' ' ∷ (a ++ (13 ∷ 10 ∷ rest)))
    → length v ≤ verb_size - 1
    → All IsVerbByte v
    → length a ≤ arg_size - 1
    → All IsArgByte a
    → Returns (request_consume b (request_parser_init p) errored) (λ (st, _, p', b').
      (st ≡ request_done)
      × (c_str p'.request.verb ≡ v)
      × (c_str p'.request.arg ≡ a)
      × (contents b' ≡ rest))
unfolding parsed in_arg request_parser_init
consume_line b p v a rest errored vb e hv kv ha ka =
    Returns-mono (Follows (scan q request_verb (contents b))) _ (request_consume b q errored) ends
      (consume-Follows b q errored vb (init-IsValid p))
  where
    q : RequestParser
    q = request_parser_init p

    read : scan q request_verb (contents b) ≡ some (parsed p v a, request_done, rest)
    read = rw e (scan_line p v a rest hv kv ha ka)

    ends :
        (r : RequestState × Bool × RequestParser × Buffer)
        → Follows (scan q request_verb (contents b)) r
        → (r.0 ≡ request_done)
          × (c_str r.2.request.verb ≡ v)
          × (c_str r.2.request.arg ≡ a)
          × (contents r.3 ≡ rest)
    ends r (f, _, _) = ground (
      arith,
      read,
      c_str-filled verb_size v (omega arith) (All-mono v (λ c k. k.0) kv),
      c_str-filled arg_size a (omega arith) (All-mono a (λ c k. k.0) ka),
    )
