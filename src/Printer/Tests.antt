-- ===== src/Printer/Tests.antt =====
-- Runs of the printer and the examples of its theorems.
use quick_cmake.Prelude.{◌≡◌, refl, true, [], ◌∷◌, ◌++◌, codes, drop, arith}
use quick_cmake.Outcome.{value}
use quick_cmake.Str.{start_with, split_char}
use quick_cmake.Str.Search.{find_at, find}
use quick_cmake.Printer.{
  boolean, streamed, sequence, mapping, pair, tuple, stack, queue, Values, no_more, more, pop_back,
  to_string, to_strings, replace_at, replace_next, replace_all, format, pop_back_times, each_with,
  for_based_container, stack_text, queue_text, tuple_elements, tuple_text, pair_text,
}
use quick_cmake.Printer.Listed.{join, listed, split-to_string, to_string-listed}
use quick_cmake.Printer.Format.{template, filled, format-filled}

abbrev one_two : Values
one_two = more (streamed (codes "1")) (more (streamed (codes "2")) no_more)

printed_stack : to_string (stack one_two) ≡ codes "Stack[1<-2]"
unfolding to_string stack_text pop_back_times pop_back each_with
printed_stack = refl

printed_nested :
    to_string (tuple (more (sequence one_two) (more (pair (boolean true) (queue no_more)) no_more)))
    ≡ codes "([1,2],{True,[]})"
unfolding to_string tuple_text tuple_elements for_based_container pop_back_times pop_back each_with
    pair_text queue_text
printed_nested = refl

-- A value that holds "{}" takes the next value.
format_nested :
    format (codes "{} {}") (more (streamed (codes "{}")) (more (streamed (codes "x")) no_more))
    ≡ codes "x {}"
unfolding format replace_all to_strings replace_next replace_at find find_at start_with
format_nested = refl

split-to_string_example :
    split_char (pop_back (drop 1 (to_string (sequence one_two)))) b','
    ≡ value (codes "1" ∷ codes "2" ∷ [])
unfolding to_strings
split-to_string_example =
    split-to_string one_two ((λ e. cc, (refl, tt)), ((λ e. cc, (refl, tt)), tt))

format-filled_example :
    format (template (codes "a=") (codes ", b=" ∷ codes "." ∷ [])) one_two ≡ codes "a=1, b=2."
unfolding to_strings template filled
format-filled_example =
    format-filled (codes "a=") (codes ", b=" ∷ codes "." ∷ []) one_two (omega arith) (omega arith)

to_string-listed_example :
    (to_string (sequence one_two) ≡ listed (codes "[") (codes ",") (to_strings one_two))
    × (to_string (mapping one_two) ≡ listed (codes "[") (codes ",") (to_strings one_two))
    × (to_string (stack one_two) ≡ listed (codes "Stack[") (codes "<-") (to_strings one_two))
    × (to_string (queue one_two) ≡ listed (codes "Queue[") (codes "<-") (to_strings one_two))
    × (to_string (tuple one_two)
        ≡ codes "(" ++ (join (codes ",") (to_strings one_two) ++ codes ")"))
to_string-listed_example = to_string-listed one_two
