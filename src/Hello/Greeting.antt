-- ===== src/Hello/Greeting.antt =====
-- src/lib/hello.c: a whole greeting is read, and answered.
use smtp_protos.Prelude.{
  ℕ, zero, suc, ◌+◌, ◌-◌, ◌%◌, ◌≤◌, ◌<◌, ◌≡◌, ◌⊎◌, List, [], ◌∷◌, ◌++◌, Option, some, arith, length,
  Bool, true, false, ltb, leb, ◌==◌, Returns, if◌then◌else◌, Bool-cases, inl, inr, refl,
  Returns-bind, ap, sym, ◌∙◌, pos, negsuc,
}
use smtp_protos.Buffer.{Buffer, buffer_can_read, buffer_read, buffer_write_ptr, receive}
use smtp_protos.Buffer.{contents}
use smtp_protos.Buffer.Inv.{IsValid}
use smtp_protos.Buffer.Fifo.{length-contents, read_cases, receive_appends}
use smtp_protos.Hello.{
  HelloState, hello_version, hello_nmethods, hello_methods, hello_done, HelloParser, hello_is_done,
  hello_marshall, hello_parser_init, call_method, feed_in, hello_parser_feed, hello_loop,
  hello_consume,
}

module _ {D : Type 0} (on_method : Option (ℕ → D → D)) where
  -- The callback for each method, in order.
  abbrev pub each_method : List ℕ → D → D
  each_method [] d = d
  each_method (c ∷ ms) d = each_method ms (call_method on_method on_method c d)

  -- The parser is done and has told of these methods, and these bytes are left.
  abbrev pub Read : D → List ℕ → Bool → HelloState × Bool × HelloParser D × Buffer → Type 0
  Read d rest errored r =
      (r.0 ≡ hello_done) × (r.1 ≡ errored) × (r.2.data_of ≡ d) × (contents r.3 ≡ rest)

  cons-head : (c d : ℕ) (xs ys : List ℕ) → c ∷ xs ≡ d ∷ ys → (d ≡ c) × (xs ≡ ys)
  cons-head c d xs ys e = (cc, cc)

  abbrev told : HelloParser D → ℕ → ℕ → HelloState → HelloParser D
  told p c n st = record p {
    data_of = call_method on_method on_method c p.data_of;
    remaining = n;
    state = st;
  }

  abbrev state_for : Bool → HelloState
  state_for b = if b then hello_done else hello_methods

  method_fed :
      (p : HelloParser D) (c n : ℕ)
      → p.state ≡ hello_methods
      → p.remaining ≡ suc n
      → n < 255
      → hello_parser_feed on_method p c ≡ told p c n (state_for (n == 0))
  unfolding hello_parser_feed feed_in
  method_fed p c n s r h = let left : (suc n + 255) % 256 ≡ n = omega arith in rw (s, r, left) refl

  -- What follows a byte that leaves the parser `q`.
  abbrev next_round :
      ℕ → Buffer → HelloParser D → Bool → Option (HelloState × Bool × HelloParser D × Buffer)
  next_round fuel b q errored = elim (hello_is_done q.state errored).0 [
    | true ↦ some (q.state, (hello_is_done q.state errored).1, q, b)
    | false ↦ hello_loop on_method fuel b q q.state (hello_is_done q.state errored).1
  ]

  round_lem :
      (fuel c : ℕ) (b b' : Buffer) (p q : HelloParser D) (st : HelloState) (errored : Bool)
      → buffer_can_read b ≡ true
      → buffer_read b ≡ some (c, b')
      → hello_parser_feed on_method p c ≡ q
      → hello_loop on_method (suc fuel) b p st errored ≡ next_round fuel b' q errored
  unfolding hello_loop
  round_lem fuel c b b' p q st errored f g e = rw (f, g) (ap (λ x. next_round fuel b' x errored) e)

  methods_loop :
      (ms : List ℕ) (m fuel : ℕ) (b : Buffer) (p : HelloParser D) (st : HelloState)
      → (errored : Bool) (rest : List ℕ) → IsValid b
      → contents b ≡ (m ∷ ms) ++ rest
      → length (contents b) < fuel
      → p.state ≡ hello_methods
      → p.remaining ≡ suc (length ms)
      → length ms < 255
      → Returns
          (hello_loop on_method fuel b p st errored)
          (Read (each_method (m ∷ ms) p.data_of) rest errored)
  unfolding hello_is_done
  methods_loop ms m zero b p st errored rest v e h s r w = absurd (omega arith)
  methods_loop [] m (suc fuel) b p st errored rest v e h s r w = elim (read_cases b v) [
    | inl (f, g) ↦ absurd (cc (e, g))
    | inr (c, b', f, g, k, v') ↦
        let (x, y) = cons-head m c rest (contents b') (sym e ∙ k) in
        rw (round_lem fuel m b b' p _ st errored f (rw x at g) (method_fed p m 0 s r w))
          (refl, refl, refl, sym y)
  ]
  methods_loop (m' ∷ ms) m (suc fuel) b p st errored rest v e h s r w = elim (read_cases b v) [
    | inl (f, g) ↦ absurd (cc (e, g))
    | inr (c, b', f, g, k, v') ↦
        let (x, y) = cons-head m c ((m' ∷ ms) ++ rest) (contents b') (sym e ∙ k) in
        let read : length (contents b) ≡ suc (length (contents b')) = ap length k in
        let more : (suc (length ms) == 0) ≡ false = ground arith in
        let fed : hello_parser_feed on_method p m ≡ told p m (suc (length ms)) hello_methods =
          method_fed p m (suc (length ms)) s r w
          ∙ ap (λ t. told p m (suc (length ms)) (state_for t)) more in
        rw
          (round_lem fuel m b b' p (told p m (suc (length ms)) hello_methods) st errored f
            (rw x at g) fed)
          (methods_loop ms m' fuel b' (told p m (suc (length ms)) hello_methods) hello_methods
            errored rest v' (sym y) (omega arith) refl refl (omega arith))
  ]

  count_loop :
      (m : ℕ) (ms rest : List ℕ) (fuel : ℕ) (b : Buffer) (p : HelloParser D) (errored : Bool)
      → IsValid b
      → length ms < 255
      → contents b ≡ length (m ∷ ms) ∷ (m ∷ ms) ++ rest
      → length ((m ∷ ms) ++ rest) < fuel
      → p.state ≡ hello_nmethods
      → Returns
          (hello_loop on_method (suc fuel) b p hello_nmethods errored)
          (Read (each_method (m ∷ ms) p.data_of) rest errored)
  unfolding hello_is_done hello_parser_feed feed_in
  count_loop m ms rest fuel b p errored v w e h s = elim (read_cases b v) [
    | inl (f, g) ↦ absurd (cc (e, g))
    | inr (c, b', f, g, k, v') ↦
        let (x, y) = cons-head (suc (length ms)) c ((m ∷ ms) ++ rest) (contents b') (sym e ∙ k) in
        let q : HelloParser D = record p { remaining = suc (length ms); state = hello_methods } in
        let some_left : (suc (length ms) == 0) ≡ false = ground arith in
        let fed : hello_parser_feed on_method p (suc (length ms)) ≡ q = rw (s, some_left) refl in
        rw (round_lem fuel (suc (length ms)) b b' p q hello_nmethods errored f (rw x at g) fed) (
          methods_loop ms m fuel b' q hello_methods errored rest v' (sym y)
            (omega (arith, ap length y)) refl refl w)
  ]

  version_loop :
      (m : ℕ) (ms rest : List ℕ) (fuel : ℕ) (b : Buffer) (p : HelloParser D) (errored : Bool)
      → IsValid b
      → length ms < 255
      → contents b ≡ 5 ∷ length (m ∷ ms) ∷ (m ∷ ms) ++ rest
      → length ((m ∷ ms) ++ rest) < fuel
      → Returns
          (hello_loop on_method
            (suc (suc fuel))
            b
            (record p { state = hello_version; remaining = 0 })
            hello_version
            errored)
          (Read (each_method (m ∷ ms) p.data_of) rest errored)
  unfolding hello_is_done hello_parser_feed feed_in
  version_loop m ms rest fuel b p errored v w e h = elim (read_cases b v) [
    | inl (f, g) ↦ absurd (cc (e, g))
    | inr (c, b', f, g, k, v') ↦
        let (x, y) = cons-head 5 c (length (m ∷ ms) ∷ (m ∷ ms) ++ rest) (contents b') (sym e ∙ k) in
        let q : HelloParser D = record p { state = hello_nmethods; remaining = 0 } in
        rw
          (round_lem (suc fuel) 5 b b' (record p { state = hello_version; remaining = 0 }) q
            hello_version errored f (rw x at g) refl)
          (count_loop m ms rest fuel b' q errored v' w (sym y) h refl)
  ]

  whole_loop :
      (m : ℕ) (ms rest : List ℕ) (rounds : ℕ) (b : Buffer) (p : HelloParser D) (errored : Bool)
      → IsValid b
      → length ms < 255
      → contents b ≡ 5 ∷ length (m ∷ ms) ∷ (m ∷ ms) ++ rest
      → rounds ≡ suc (suc (length ((m ∷ ms) ++ rest)))
      → Returns
          (hello_loop on_method
            (suc rounds)
            b
            (record p { state = hello_version; remaining = 0 })
            hello_version
            errored)
          (Read (each_method (m ∷ ms) p.data_of) rest errored)
  whole_loop m ms rest rounds b p errored v w e h =
      rw h
        (version_loop m ms rest (suc (length ((m ∷ ms) ++ rest))) b p errored v w e (omega arith))

  -- A greeting with one to 255 methods, followed by other bytes, is read whole and not further, and
  -- the callback has been given each method in its order.
  pub hello_consume_lem :
      (m : ℕ) (ms rest : List ℕ) (b : Buffer) (p : HelloParser D) (errored : Bool)
      → IsValid b
      → length ms < 255
      → contents b ≡ 5 ∷ length (m ∷ ms) ∷ (m ∷ ms) ++ rest
      → Returns
          (hello_consume on_method b (hello_parser_init on_method p) errored)
          (Read (each_method (m ∷ ms) p.data_of) rest errored)
  unfolding hello_consume hello_parser_init
  hello_consume_lem m ms rest b p errored v w e =
      whole_loop m ms rest (b.write - b.read) b p errored v w e
        (sym (length-contents b v) ∙ ap length e)

-- The answer to a greeting is put into the buffer behind what is there, if there is room for it;
-- otherwise the buffer is left alone and -1 is returned.
pub hello_marshall_lem :
    (b : Buffer) (method : ℕ)
    → IsValid b
    → Returns (hello_marshall b method) (λ r.
      ((r.0 ≡ pos 2) × (contents r.1 ≡ contents b ++ 5 ∷ method ∷ []))
      ⊎ ((r.0 ≡ negsuc 0) × (r.1 ≡ b) × (b.limit < b.write + 2)))
unfolding hello_marshall buffer_write_ptr
hello_marshall_lem b method v =
    let good : leb b.write b.limit ≡ true = ground arith in
    elim (Bool-cases (ltb (b.limit - b.write) 2)) [
      | inl e ↦ rw (good, e) (inr (refl, refl, ground arith))
      | inr e ↦
          let fits : b.write + 2 ≤ b.limit = ground arith in
          rw (good, e)
            (Returns-bind (λ c. (contents c ≡ contents b ++ 5 ∷ method ∷ []) × IsValid c) _
              (receive b (5 ∷ method ∷ [])) _ (λ c x. inl (refl, x.0))
              (receive_appends b (5 ∷ method ∷ []) v fits))
    ]
