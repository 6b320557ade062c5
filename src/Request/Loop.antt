-- ===== src/Request/Loop.antt =====
-- The loop that request_consume_data and request_consume_admin share: read a byte, feed it, and
-- stop where parsing is over, where `more` fails, or where the buffer is empty.
use smtp_protos.Prelude.{
  ℕ, zero, suc, ◌<◌, ◌≡◌, List, [], ◌∷◌, Option, none, some, arith, length, Bool, true, false, ◌&&◌,
  if◌then◌else◌, ◌>>=◌, Option-cases, inl, inr, ap,
}
use smtp_protos.Buffer.{Buffer, contents, buffer_can_read, buffer_read}
use smtp_protos.Buffer.Inv
use smtp_protos.Buffer.Fifo.{read_cases}
use smtp_protos.Request.{RequestParser, RequestState, request_is_done}

-- What a consumer ends with, its buffer seen as the bytes that are left.
abbrev pub view :
    Option (RequestState × Bool × RequestParser × Buffer)
    → Option (RequestParser × RequestState × List ℕ)
view none = none
view (some (st, _, p, b)) = some (p, st, contents b)

module _ (more : RequestParser → Bool) (feed : RequestParser → ℕ → Option RequestParser) where
  -- At most `fuel` rounds; `st` is the last state that `feed` returned.
  unfoldable pub feed_loop :
      ℕ
      → Buffer
      → RequestParser
      → RequestState
      → Bool
      → Option (RequestState × Bool × RequestParser × Buffer)
  feed_loop zero b p st errored = none
  feed_loop (suc fuel) b p st errored = elim (buffer_can_read b && more p) [
    | false ↦ some (st, errored, p, b)
    | true ↦ do
      (c, b') ← buffer_read b
      p' ← feed p c
      let (done, errored') = request_is_done p'.state errored
      elim done [
        | true ↦ some (p'.state, errored', p', b')
        | false ↦ feed_loop fuel b' p' p'.state errored'
      ]
  ]

  -- The same run over a list of bytes: the parser, its state, and the bytes that were not used.
  unfoldable pub feed_run :
      RequestParser → RequestState → List ℕ → Option (RequestParser × RequestState × List ℕ)
  feed_run p st [] = some (p, st, [])
  feed_run p st (c ∷ cs) =
      if more p
      then (do
        p' ← feed p c
        let rest = feed_run p' p'.state cs
        if (request_is_done p'.state false).0 then some (p', p'.state, cs) else rest)
      else some (p, st, c ∷ cs)

  -- With a round to spare, the loop ends as the run does: at the same parser, with the unused bytes
  -- left in the buffer, or at the same fault.
  pub loop_view :
      (fuel : ℕ) (b : Buffer) (p : RequestParser) (st : RequestState) (errored : Bool)
      → Inv.IsValid b
      → length (contents b) < fuel
      → view (feed_loop fuel b p st errored) ≡ feed_run p st (contents b)
  unfolding feed_loop feed_run request_is_done
  loop_view zero b p st errored vb h = absurd (omega arith)
  loop_view (suc fuel) b p st errored vb h = elim (read_cases b vb) [
    | inl (e, f) ↦ ground (arith, f)
    | inr (c, b', e, g, f, vb') ↦ elim (Option-cases (feed p c)) [
      | inl k ↦ ground (arith, f)
      | inr (p', k) ↦ ground (
        arith,
        f,
        loop_view fuel b' p' p'.state (request_is_done p'.state errored).1 vb'
            (omega (arith, ap length f)),
      )
    ]
  ]

  -- The loop leaves a valid buffer.
  pub loop-IsValid :
      (fuel : ℕ) (b : Buffer) (p : RequestParser) (st : RequestState) (errored : Bool)
      (r : RequestState × Bool × RequestParser × Buffer)
      → Inv.IsValid b
      → feed_loop fuel b p st errored ≡ some r
      → Inv.IsValid r.3
  unfolding feed_loop request_is_done
  loop-IsValid zero b p st errored r vb h = cc
  loop-IsValid (suc fuel) b p st errored r vb h = elim (read_cases b vb) [
    | inl (e, f) ↦ ground arith
    | inr (c, b', e, g, f, vb') ↦ elim (Option-cases (feed p c)) [
      | inl k ↦ ground arith
      | inr (p', k) ↦
          ground
            (arith, loop-IsValid fuel b' p' p'.state (request_is_done p'.state errored).1 r vb')
    ]
  ]
