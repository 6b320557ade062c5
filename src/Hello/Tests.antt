-- ===== src/Hello/Tests.antt =====
-- Runs of src/lib/hello.c.
use smtp_protos.Prelude.{ℕ, ◌≡◌, List, [], ◌∷◌, Option, some, arith, false, Returns, refl}
use smtp_protos.Buffer.{Buffer, contents}
use smtp_protos.Buffer.Inv.{IsValid}
use smtp_protos.Hello.{HelloParser, hello_done, hello_consume, hello_parser_init}
use smtp_protos.Hello.Greeting.{Read, each_method, hello_consume_lem}

abbrev greeting : Buffer
greeting = record { mem = 5 ∷ 2 ∷ 0 ∷ 1 ∷ 9 ∷ []; limit = 5; read = 0; write = 5 }

greeting-IsValid : IsValid greeting
greeting-IsValid = omega arith

-- The methods, the last one first.
abbrev noting : Option (ℕ → List ℕ → List ℕ)
noting = some (λ c d. c ∷ d)

abbrev parser : HelloParser (List ℕ)
parser = record { data_of = []; state = hello_done; remaining = 7 }

greeting_read : contents greeting ≡ 5 ∷ 2 ∷ 0 ∷ 1 ∷ 9 ∷ []
unfolding contents
greeting_read = refl

hello_consume_lem_example :
    Returns
      (hello_consume noting greeting (hello_parser_init noting parser) false)
      (Read noting (each_method noting (0 ∷ 1 ∷ []) []) (9 ∷ []) false)
hello_consume_lem_example =
    hello_consume_lem noting 0 (1 ∷ []) (9 ∷ []) greeting parser false greeting-IsValid
      (omega arith) greeting_read

abbrev reply : Buffer
reply = record { mem = 0 ∷ 0 ∷ 0 ∷ []; limit = 3; read = 0; write = 0 }

reply-IsValid : IsValid reply
reply-IsValid = omega arith
