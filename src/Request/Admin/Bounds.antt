-- ===== src/Request/Admin/Bounds.antt =====
-- Which steps of request_admin.c are defined.
use smtp_protos.Prelude.{ℕ, ◌-◌, ◌≤◌, ◌≡◌, ◌≢◌, ◌↔◌, none, arith, length-set, Returns}
use smtp_protos.Request.{RequestParser, request_verb, verb_size}
use smtp_protos.Request.Bounds.{IsValid}
use smtp_protos.Request.Admin.{request_parser_admin_feed}

-- One byte more than a verb holds.
abbrev pub VerbTooLong : RequestParser → ℕ → Type 0
VerbTooLong p c = (p.state ≡ request_verb) × (verb_size - 1 ≤ p.i) × (c ≢ b' ') × (c ≢ 13)

pub admin_feed_fault :
    (p : RequestParser) (c : ℕ) → VerbTooLong p c → request_parser_admin_feed p c ≡ none
unfolding request_parser_admin_feed
admin_feed_fault p c h = ground arith

pub admin_feed-IsValid :
    (p : RequestParser) (c : ℕ)
    → IsValid p
    → ¬ VerbTooLong p c
    → Returns (request_parser_admin_feed p c) IsValid
unfolding request_parser_admin_feed
admin_feed-IsValid p c v h = ground (
  arith,
  length-set p.request.verb p.i c,
  length-set p.request.verb p.i 0,
  length-set p.request.arg p.i c,
  length-set p.request.arg p.i 0,
)

-- A step of the administrator's parser is undefined exactly where a byte that is neither SP nor CR
-- comes when the verb is full.
pub admin_feed_fault_iff :
    (p : RequestParser) (c : ℕ)
    → IsValid p
    → (request_parser_admin_feed p c ≡ none) ↔ VerbTooLong p c
unfolding request_parser_admin_feed
admin_feed_fault_iff p c v =
    (λ e. (ground arith, ground arith, λ q. ground arith, λ q. ground arith), admin_feed_fault p c)
