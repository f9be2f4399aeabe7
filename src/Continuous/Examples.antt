-- ===== src/Continuous/Examples.antt =====
-- Tests and instances for `Continuous`, with the conversions of `uint64_t`.
use distributed_math_arh.Prelude.{ℕ, ◌^◌, ◌≡◌, refl, true, [], ◌∷◌, some}
use distributed_math_arh.Outcome.{Outcome, ok, throw, logic_error}
use distributed_math_arh.Json.{
  Json, uint, as_unsigned, text, array, item, no_items, member, elements,
}
use distributed_math_arh.Entities.{Reals}
use distributed_math_arh.Task.Json.{element}
use distributed_math_arh.Continuous.{json_to_continuous, reader_of, read_entries}

abbrev no_reals : Reals ℕ
no_reals = record {
  show = λ x. "";
  to_unsigned = λ limit x. throw logic_error;
  nonzero = λ x. true;
}

abbrev as_word : Json ℕ → Outcome ℕ
as_word v = as_unsigned (2 ^ 64) (λ x. throw logic_error) v

-- An entry that is no number is an error, and one that is not there is 0.
bad_entry :
    json_to_continuous (reader_of no_reals as_word (array (item (text "x") no_items))) (some 1) true
    ≡ throw logic_error
unfolding json_to_continuous reader_of read_entries as_unsigned element elements member
bad_entry = refl

missing_entry :
    json_to_continuous (reader_of no_reals as_word (array (item (uint 7) no_items))) (some 2) true
    ≡ ok (7 ∷ 0 ∷ [])
unfolding json_to_continuous reader_of read_entries as_unsigned element elements member
missing_entry = refl
