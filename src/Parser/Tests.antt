-- ===== src/Parser/Tests.antt =====
-- Runs of src/lib/parser.c and src/lib/parser_utils.c.
use smtp_protos.Prelude.{◌≡◌, arith, Returns, codes, [], ◌∷◌, refl, replicate}
use smtp_protos.Parser.{parser_init, parser_no_classes, parser_feed, find_match, is_matched, fire}
use smtp_protos.Parser.Strcmpi.{
  parser_utils_strcmpi, feed_all, string_cmp_neq, letter_state, states_from,
}
use smtp_protos.Parser.Verdict.{verdict, parser_utils_strcmpi_lem}

parser_utils_strcmpi_lem_example :
    Returns
      (feed_all (parser_init parser_no_classes (parser_utils_strcmpi (codes "foo"))) (codes "fO"))
      (λ q. q.e1.type_of ≡ verdict (codes "foo") (codes "fO"))
parser_utils_strcmpi_lem_example =
    parser_utils_strcmpi_lem (codes "foo") (codes "fO") (λ e. cc e)
      ((omega arith, omega arith), ((omega arith, omega arith), tt))
      ((omega arith, omega arith), ((omega arith, omega arith), ((omega arith, omega arith), tt)))

-- A byte above 127 never matches the same char of the string.
above_ascii_test :
    Returns
      (feed_all (parser_init parser_no_classes (parser_utils_strcmpi (200 ∷ []))) (200 ∷ []))
      (λ q. q.e1.type_of ≡ string_cmp_neq)
unfolding parser_init parser_utils_strcmpi feed_all parser_feed parser_no_classes find_match
    is_matched letter_state states_from fire replicate
above_ascii_test = refl
