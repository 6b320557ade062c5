-- ===== src/Socket/Unused.antt =====
-- src/lib/smtp.c: the reading handlers that no table names, since request_read_handler serves their
-- states, and strndup.
use smtp_protos.Prelude.{
  ℕ, ◌+◌, ◌≤◌, ◌≡◌, List, [], ◌∷◌, ◌++◌, Option, none, some, length, Bool, true, false, ◌==◌, take,
  if◌then◌else◌, ◌>>=◌, refl, arith, length-append, length-take, Returns,
}
use smtp_protos.Process.Admin.{Directory}
use smtp_protos.Request.{RequestState, request_is_done, request_error}
use smtp_protos.Buffer.{buffer_can_read, buffer_write_ptr, buffer_reset, receive}
use smtp_protos.Registry.{AccessRegistry}
use smtp_protos.Smtp.{SocketState, request_data_read, request_admin, request_failed}
use smtp_protos.Socket.{World, with_session, process}
use smtp_protos.Socket.Read.{
  consume, get_bytes, is_data_read, request_read_handler, request_actual_read, answer,
  wait_for_file,
}
use smtp_protos.CString.{c_str}

abbrev is_error : RequestState → Bool
is_error request_error = true
is_error _ = false

-- The read buffer is emptied after a request that is not well formed.
abbrev after_error : RequestState → World → World
after_error state w =
    if is_error state
    then with_session
        (record (w.client.session) { read_buffer = buffer_reset w.client.session.read_buffer }) w
    else w

step_then {ℓ} :
    {C : Type ℓ} {D : Type ℓ} (m : Option C) (k : Option C → Option D)
    → (m >>= λ x. k (some x)) ≡ ((m >>= λ x. some (some x)) >>= k)
step_then none k = refl
step_then (some x) k = refl

tested {ℓ} :
    {B : Type ℓ} {C : Type ℓ} {D : Type ℓ} (t : Bool) (m : Option B) (c : B → Option C)
    (k : Option C → Option D)
    → (if t then k none else (m >>= λ b. c b >>= λ x. k (some x)))
      ≡ ((if t then some none else (m >>= λ b. c b >>= λ x. some (some x))) >>= k)
tested true m c k = refl
tested false none c k = refl
tested false (some b) c k = step_then (c b) k

-- What follows a test and two steps may follow each of them.
then_at_once {ℓ} :
    {A : Type ℓ} {B : Type ℓ} {C : Type ℓ} {D : Type ℓ} (m : Option A) (t : A → Bool)
    (r : A → Option B) (c : B → Option C) (k : Option C → Option D)
    → (m >>= λ a. if t a then k none else (r a >>= λ b. c b >>= λ x. k (some x)))
      ≡ ((m >>= λ a. if t a then some none else (r a >>= λ b. c b >>= λ x. some (some x))) >>= k)
then_at_once none t r c k = refl
then_at_once (some a) t r c k = tested (t a) (r a) c k

module _ (dir : AccessRegistry → Directory) where
  -- What both handlers begin with: the bytes that recv gives are taken and consumed.
  unfoldable pub take_bytes : SocketState → World → Option (Option (RequestState × World))
  unfolding consume
  take_bytes st w = do
    (_, room) ← buffer_write_ptr w.client.session.read_buffer
    let bytes = take room (get_bytes w.answers.received)
    if length bytes == 0 then some none else (do
      b ← receive w.client.session.read_buffer bytes
      r ← consume st (with_session (record (w.client.session) { read_buffer = b }) w)
      some (some r))

  -- A request that is complete is processed.
  abbrev process_if : Bool → SocketState → World → Option (SocketState × World)
  process_if done st w = if done then process dir w else some (st, w)

  abbrev after_admin : World → Option (RequestState × World) → Option (SocketState × World)
  after_admin w none = some (request_failed, w)
  after_admin w (some (state, w₁)) = do
    (ret, w₂) ← process_if (request_is_done state false).0 request_admin w₁
    some (ret, after_error state w₂)

  unfoldable pub request_admin_handler : World → Option (SocketState × World)
  unfolding take_bytes
  request_admin_handler w = do r ← take_bytes request_admin w; after_admin w r

  abbrev after_data : World → Option (RequestState × World) → Option (SocketState × World)
  after_data w none = some (request_failed, w)
  after_data w (some (state, w₁)) = process_if (request_is_done state false).0 request_data_read w₁

  unfoldable pub request_data_handler : World → Option (SocketState × World)
  unfolding take_bytes
  request_data_handler w = do r ← take_bytes request_data_read w; after_data w r

  done-error : (st : RequestState) → (request_is_done st false).0 ≡ false → is_error st ≡ false
  unfolding request_is_done
  done-error st h = ground arith

  abbrev after_read :
      SocketState → World → Option (RequestState × World) → Option (SocketState × World)
  after_read st w none = some (request_failed, w)
  after_read st w (some (state, w₁)) =
      if is_data_read st
      then wait_for_file w₁
      else if (request_is_done state false).0
      then answer dir w₁
      else some (st, w₁)

  read_take :
      (st : SocketState) (w : World)
      → buffer_can_read w.client.session.read_buffer ≡ false
      → request_read_handler dir st w ≡ take_bytes st w >>= after_read st w
  unfolding take_bytes request_read_handler request_actual_read
  read_take st w c = rw c (
      then_at_once (buffer_write_ptr w.client.session.read_buffer)
        (λ x. length (take x.1 (get_bytes w.answers.received)) == 0)
        (λ x. receive w.client.session.read_buffer (take x.1 (get_bytes w.answers.received)))
        (λ b. consume st (with_session (record (w.client.session) { read_buffer = b }) w))
        (after_read st w))

  -- A request that is not complete yet leaves both handlers as request_read_handler does, in the
  -- administrator's state.
  request_admin_handler-unfinished :
      (w w₁ : World) (state : RequestState)
      → buffer_can_read w.client.session.read_buffer ≡ false
      → take_bytes request_admin w ≡ some (some (state, w₁))
      → (request_is_done state false).0 ≡ false
      → (request_admin_handler w ≡ some (request_admin, w₁))
        × (request_read_handler dir request_admin w ≡ some (request_admin, w₁))
  unfolding request_admin_handler
  request_admin_handler-unfinished w w₁ state c t d = (
    rw t (rw d (rw (done-error state d) refl)),
    rw (read_take request_admin w c) (rw t (rw d refl)),
  )

-- A copy of at most `n` bytes, and a NUL; without memory NULL.
unfoldable pub strndup : Bool → List ℕ → ℕ → Option (List ℕ)
strndup mem s n = if mem then some (c_str (take n s) ++ 0 ∷ []) else none

c_str_end : (s : List ℕ) → c_str (c_str s ++ 0 ∷ []) ≡ c_str s
unfolding c_str
c_str_end [] = refl
c_str_end (c ∷ s) = ground (arith, c_str_end s)

length-c_str : (s : List ℕ) → length (c_str s) ≤ length s
unfolding c_str
length-c_str [] = omega arith
length-c_str (c ∷ s) = ground (arith, length-c_str s)

-- The copy holds the string up to `n` bytes of it, in at most n + 1 bytes.
strndup_lem :
    (s : List ℕ) (n : ℕ)
    → Returns (strndup true s n) (λ t. (c_str t ≡ c_str (take n s)) × (length t ≤ n + 1))
unfolding strndup
strndup_lem s n = (
  c_str_end (take n s),
  omega
      (arith, length-append (c_str (take n s)) (0 ∷ []), length-c_str (take n s), length-take n s),
)
