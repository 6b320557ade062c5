-- ===== src/Registry/Mock.antt =====
-- src/lib/access_registry.c: init_access_registry, which registers mails that were never sent. `rand` is
-- what the calls of rand(3) give, one after another, and `now` what time(2) does.
use smtp_protos.Prelude.{
  ℕ, zero, suc, ◌+◌, ◌-◌, ◌*◌, ◌/◌, ◌%◌, ◌≤◌, ◌<◌, ◌≡◌, List, [], ◌∷◌, ◌++◌, Option, none, some,
  arith, length, Bool, true, ltb, leb, Returns, get_or, if◌then◌else◌, refl, length-append, codes,
  ℤ, pos, negsuc,
}
use smtp_protos.Registry.{AccessRegistry, register_mail}
use smtp_protos.Registry.Inv.{IsValid, IsSorted, register_mail-IsValid}

abbrev pub mock_domains : List (List ℕ)
mock_domains = codes "mateo" ∷ codes "lucas" ∷ codes "harry" ∷ []

-- A time_t less some seconds.
unfoldable pub minus_seconds : ℤ → ℕ → ℤ
minus_seconds (pos n) k = if leb k n then pos (n - k) else negsuc (k - n - 1)
minus_seconds (negsuc n) k = negsuc (n + k)

-- "%d" of a number below 100.
unfoldable pub two_digit : ℕ → List ℕ
two_digit i = if ltb i 10 then (48 + i) ∷ [] else (48 + i / 10) ∷ (48 + i % 10) ∷ []

module _ (rand : ℕ → ℕ) (now : ℤ) where
  -- The mail of a round of the loop, which is the one of its three calls of rand.
  unfoldable pub mock_mail : ℕ → AccessRegistry → AccessRegistry
  unfolding two_digit minus_seconds
  mock_mail i r =
      let from = get_or mock_domains (rand (3 * i) % 3) [] in
      let to = get_or mock_domains (rand (3 * i + 1) % 3) [] in
      register_mail from to
        (codes "/var/mail/"
          ++ (from ++ (codes "_to_" ++ (to ++ (codes "_" ++ (two_digit i ++ codes ".eml"))))))
        (minus_seconds now (rand (3 * i + 2) % 86400 * 2)) r

  -- The rounds from `i` on, `n` of them.
  unfoldable pub mock_loop : ℕ → ℕ → AccessRegistry → AccessRegistry
  mock_loop zero i r = r
  mock_loop (suc n) i r = mock_loop n (suc i) (mock_mail i r)

  unfoldable pub generate_mock_emails : AccessRegistry → AccessRegistry
  generate_mock_emails r = mock_loop 50 0 r

  abbrev empty_registry : AccessRegistry
  empty_registry = record { mails_count = 0; users = []; by_name = []; by_time = [] }

  -- Without memory the pointer is NULL, and the count is written through it.
  unfoldable pub init_access_registry : Bool → Option AccessRegistry
  unfolding generate_mock_emails
  init_access_registry mem = if mem then some (generate_mock_emails empty_registry) else none

  mock_mail-IsValid :
      (i : ℕ) (r : AccessRegistry)
      → IsValid r
      → IsValid (mock_mail i r) × (length (mock_mail i r).by_name ≡ length r.by_name + 1)
  unfolding mock_mail
  mock_mail-IsValid i r v =
      (register_mail-IsValid _ _ _ _ r v, unfold register_mail in length-append r.by_name (_ ∷ []))

  mock_loop-IsValid :
      (n i : ℕ) (r : AccessRegistry)
      → IsValid r
      → IsValid (mock_loop n i r) × (length (mock_loop n i r).by_name ≡ length r.by_name + n)
  unfolding mock_loop
  mock_loop-IsValid zero i r v = (v, omega arith)
  mock_loop-IsValid (suc n) i r v =
      let (w, e) = mock_mail-IsValid i r v in
      let (x, f) = mock_loop-IsValid n (suc i) (mock_mail i r) w in (x, omega arith)

  empty-IsValid : IsValid empty_registry
  unfolding IsSorted
  empty-IsValid = record { sorted = tt; same = λ p. refl; known = tt; counted = omega arith }

  -- With memory the server starts with a valid registry that holds fifty mails.
  pub init_access_registry_lem :
      Returns
        (init_access_registry true)
        (λ r. IsValid r × (r.mails_count ≡ 50) × (length r.by_name ≡ 50))
  unfolding init_access_registry
  init_access_registry_lem =
      let (v, e) = mock_loop-IsValid 50 0 empty_registry empty-IsValid in
      (v, omega (arith, v.counted), e)

  abbrev Recent : ℕ → ℤ → Type 0
  Recent n time = (k : ℕ) × (k < 2 * 86400) × (time ≡ pos (n - k))

  -- A mock mail is dated within two days before the start, not within thirty.
  pub mock_time :
      (n i : ℕ) → now ≡ pos n → 2 * 86400 ≤ n → Recent n (minus_seconds now (rand i % 86400 * 2))
  unfolding minus_seconds
  mock_time n i e h = rw e (rand i % 86400 * 2, omega arith, ground arith)
