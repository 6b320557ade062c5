-- ===== src/Request/Line/Consume.antt =====
-- The loop of `request_consume` against a run over the bytes that the buffer holds.
use smtp_protos.Prelude.{
  ℕ, zero, suc, ◌-◌, ◌<◌, ◌≡◌, List, [], ◌∷◌, ◌++◌, Option, some, arith, length, Bool, false,
  Returns, if◌then◌else◌, ◌>>=◌, Bool-cases, Option-cases, inl, inr, ap, refl, Returns-some,
}
use smtp_protos.Buffer.{Buffer, contents}
use smtp_protos.Buffer.Inv
use smtp_protos.Buffer.Fifo.{read_cases, length-contents}
use smtp_protos.Request.{RequestParser, RequestState, request_is_done}
use smtp_protos.Request.Line.{request_parser_feed, consume_loop, request_consume}
use smtp_protos.Request.Bounds.{IsValid}
use smtp_protos.Request.Line.Bounds.{feed-IsValid}

-- Feed bytes until parsing is over: the parser, and the bytes that were not used.
unfoldable pub scan :
    RequestParser → RequestState → List ℕ → Option (RequestParser × RequestState × List ℕ)
scan p st [] = some (p, st, [])
scan p st (c ∷ cs) =
    if (request_is_done st false).0
    then some (p, st, c ∷ cs)
    else (do p' ← request_parser_feed p c; scan p' p'.state cs)

-- How `request_consume` ends, seen from a run over the bytes.
abbrev pub Follows :
    Option (RequestParser × RequestState × List ℕ)
    → RequestState × Bool × RequestParser × Buffer
    → Type 0
Follows r (st, errored, p, b) = (r ≡ some (p, st, contents b)) × Inv.IsValid b × IsValid p

loop-Follows :
    (fuel : ℕ) (b : Buffer) (p : RequestParser) (st : RequestState) (errored : Bool)
    → Inv.IsValid b
    → IsValid p
    → length (contents b) < fuel
    → Returns (consume_loop fuel b p st errored) (Follows (scan p st (contents b)))
unfolding consume_loop scan request_is_done
loop-Follows zero b p st errored vb vp h = absurd (omega arith)
loop-Follows (suc fuel) b p st errored vb vp h = elim (read_cases b vb) [
  | inl (e, f) ↦ rw (e, f) (refl, vb, vp)
  | inr (c, b', e, g, f, vb') ↦ elim (Bool-cases (request_is_done st false).0) [
    | inl done ↦ ground (arith, f)
    | inr more ↦
        let (p', k, vp') = Returns-some IsValid _ (feed-IsValid p c vp) in
        ground (
          arith,
          f,
          loop-Follows fuel b' p' p'.state (request_is_done st errored).1 vb' vp'
              (omega (arith, ap length f)),
        )
  ]
]

-- The call ends, without a fault, where the run over the bytes does, and leaves in the buffer the
-- bytes that were not used.
pub consume-Follows :
    (b : Buffer) (p : RequestParser) (errored : Bool)
    → Inv.IsValid b
    → IsValid p
    → Returns (request_consume b p errored) (Follows (scan p p.state (contents b)))
unfolding request_consume
consume-Follows b p errored vb vp =
    loop-Follows (suc (b.write - b.read)) b p p.state errored vb vp
      (omega (arith, length-contents b vb))

-- A run over two pieces goes on with the second where the first ended.
pub scan-append :
    (p : RequestParser) (st : RequestState) (xs ys : List ℕ)
    → scan p st (xs ++ ys) ≡ (scan p st xs >>= λ r. scan r.0 r.1 (r.2 ++ ys))
unfolding scan
scan-append p st [] ys = refl
scan-append p st (x ∷ xs) ys = elim (Option-cases (request_parser_feed p x)) [
  | inl e ↦ ground arith
  | inr (p', e) ↦ ground (arith, scan-append p' p'.state xs ys)
]
