-- ===== src/Hello.antt =====
-- src/lib/hello.c: the parser of a SOCKS5 greeting. `on_method` is on_authentication_method, which may
-- be NULL and acts on the user's data.
pub mod Greeting
mod Tests
use smtp_protos.Prelude.{
  ℕ, zero, suc, ◌+◌, ◌-◌, ◌*◌, ◌/◌, ◌%◌, ◌^◌, ◌≤◌, ◌<◌, ◌≡◌, ◌≢◌, ◌↔◌, ◌⊎◌, List, [], ◌∷◌, ◌++◌,
  Option, none, some, arith, length, set, Bool, true, false, ltb, leb, ◌==◌, ◌&&◌, ◌||◌, not,
  length-set, length-take, Returns, Returns-some, get_or, length-replicate, take, drop,
  if◌then◌else◌, ◌>>=◌, ◌>>◌, Bool-cases, Option-cases, inl, inr, refl, Returns-bind, Returns-mono,
  All, All-mono, filled, replicate, length-filled, set-filled, set-filled_end, set-replicate,
  length-append, ap, sym, ◌∙◌, append-nil, append_assoc, store, codes, ℤ, pos, negsuc, map, assert,
  dec_lt, ℕ_discrete,
}
use smtp_protos.Buffer.{Buffer, buffer_can_read, buffer_read, buffer_write_ptr, receive}

-- enum hello_state
pub data HelloState : Type 0 where
  hello_version hello_nmethods hello_methods hello_done hello_error_unsupported_version : HelloState

-- struct hello_parser
pub record HelloParser (D : Type 0) : Type 0 where
  pub data_of : D
  pub state : HelloState
  pub remaining : ℕ

-- hello_is_done, with the flag that it may set.
unfoldable pub hello_is_done : HelloState → Bool → Bool × Bool
hello_is_done hello_error_unsupported_version errored = (true, true)
hello_is_done hello_done errored = (true, errored)
hello_is_done _ errored = (false, errored)

unfoldable pub hello_error : HelloState → List ℕ
hello_error hello_error_unsupported_version = codes "unsupported version"
hello_error _ = []

-- The answer to a greeting; the result is -1 where it does not fit.
unfoldable pub hello_marshall : Buffer → ℕ → Option (ℤ × Buffer)
hello_marshall b method = do
  (_, n) ← buffer_write_ptr b
  if ltb n 2 then some (negsuc 0, b) else (do b' ← receive b (5 ∷ method ∷ []); some (pos 2, b'))

module _ {D : Type 0} (on_method : Option (ℕ → D → D)) where
  unfoldable pub hello_parser_init : HelloParser D → HelloParser D
  hello_parser_init p = record p { state = hello_version; remaining = 0 }

  abbrev pub call_method : Option (ℕ → D → D) → ℕ → D → D
  call_method none c d = d
  call_method (some f) c d = f c d

  -- `remaining` is a uint8_t.
  unfoldable pub feed_in : HelloState → HelloParser D → ℕ → HelloParser D
  feed_in hello_version p c = record p {
    state = if c == 5 then hello_nmethods else hello_error_unsupported_version;
  }
  feed_in hello_nmethods p c = record p {
    remaining = c;
    state = if c == 0 then hello_done else hello_methods;
  }
  feed_in hello_methods p c =
      let left = (p.remaining + 255) % 256 in
      record p {
        data_of = call_method on_method c p.data_of;
        remaining = left;
        state = if left == 0 then hello_done else p.state;
      }
  feed_in hello_done p c = p
  feed_in hello_error_unsupported_version p c = p

  unfoldable pub hello_parser_feed : HelloParser D → ℕ → HelloParser D
  unfolding feed_in
  hello_parser_feed p c = feed_in p.state p c

  -- At most `fuel` rounds; `st` is the last state returned.
  unfoldable pub hello_loop :
      ℕ
      → Buffer
      → HelloParser D
      → HelloState
      → Bool
      → Option (HelloState × Bool × HelloParser D × Buffer)
  hello_loop zero b p st errored = none
  hello_loop (suc fuel) b p st errored =
      if buffer_can_read b
      then (do
        (c, b') ← buffer_read b
        let p' = hello_parser_feed p c
        let (is_over, errored') = hello_is_done p'.state errored
        elim is_over [
          | true ↦ some (p'.state, errored', p', b')
          | false ↦ hello_loop fuel b' p' p'.state errored'
        ])
      else some (st, errored, p, b)

  -- A round reads a byte.
  unfoldable pub hello_consume :
      Buffer → HelloParser D → Bool → Option (HelloState × Bool × HelloParser D × Buffer)
  unfolding hello_loop
  hello_consume b p errored = hello_loop (suc (b.write - b.read)) b p p.state errored
