-- ===== src/Task/Examples.antt =====
-- Tests and instances for `Task`.
use distributed_math_arh.Prelude.{
  ℕ, ◌+◌, ◌-◌, ◌<◌, ◌≡◌, refl, [], ◌∷◌, ◌++◌, arith, inr, u64, true, ◌^◌,
}
use distributed_math_arh.Prelude.Dict.{lookup}
use distributed_math_arh.Outcome.{ok, throw, out_of_range, logic_error, invalid_option}
use distributed_math_arh.Json.{array, no_items}
use distributed_math_arh.Entities.{Reals}
use distributed_math_arh.Task.Json.{task_of_json, task_to_json, json_to_variant}
use distributed_math_arh.Task.RoundTrip.{task_of_json-task_to_json}
use distributed_math_arh.Task.{TestSolveParam, JsonVariant, range_size, slice_away}
use distributed_math_arh.Task.Slice.{
  IsRange, iterations, block, rest, slice_away_cuts, slice_away_refuses, slice_away_wraps,
}

-- The sample of computationalLib/test/network_shared/networkTypesTests.cpp.
abbrev sample : TestSolveParam ℕ
sample = record {
  experiment_id = 1;
  system_size = 10;
  range_first = 0;
  range_second = 9999;
  args = ("msg", JsonVariant.text "some string") ∷ [];
}

sample-IsRange : IsRange sample
sample-IsRange = omega arith

slice_runs : slice_away sample 1000 ≡ ok (block sample 1000, rest sample 1000)
unfolding slice_away
slice_runs = refl

slice_away_cuts_example :
    (slice_away sample 1000 ≡ ok (block sample 1000, rest sample 1000))
    × (iterations sample ≡ iterations (block sample 1000) ++ iterations (rest sample 1000))
    × (range_size (block sample 1000) ≡ 1000)
    × (range_size (rest sample 1000) + 1000 ≡ range_size sample)
    × IsRange (block sample 1000)
    × IsRange (rest sample 1000)
unfolding range_size
slice_away_cuts_example = slice_away_cuts sample 1000 sample-IsRange (omega arith) (omega arith)

slice_away_refuses_example : slice_away sample 100_000 ≡ throw (out_of_range 100_000 1 10_000)
unfolding range_size
slice_away_refuses_example =
    slice_away_refuses sample 100_000 sample-IsRange (inr (omega arith)) (omega arith)

abbrev late : TestSolveParam ℕ
late = record sample { range_first = 5 }

slice_past_the_end :
    (a b : TestSolveParam ℕ) × (slice_away late (u64 - 1) ≡ ok (a, b))
    × (b.range_first < 5)
    × (range_size late < range_size b)
slice_past_the_end = slice_away_wraps late (u64 - 1) (omega arith) (omega arith) (omega arith)

abbrev no_reals : Reals ℕ
no_reals = record {
  show = λ x. "";
  to_unsigned = λ limit x. throw logic_error;
  nonzero = λ x. true;
}

task_of_json-task_to_json_example : task_of_json no_reals (task_to_json sample) ≡ ok sample
unfolding lookup
task_of_json-task_to_json_example = task_of_json-task_to_json no_reals sample (refl, tt)

-- The end of the range is written with 64 bits, and not read again.
large_range_is_refused :
    task_of_json no_reals (task_to_json (record sample { range_second = 2 ^ 32 }))
    ≡ throw logic_error
unfolding lookup
large_range_is_refused =
    task_of_json-task_to_json no_reals (record sample { range_second = 2 ^ 32 }) (refl, tt)

arrays_are_no_arguments : json_to_variant {F = ℕ} (array no_items) ≡ throw (invalid_option "6")
unfolding json_to_variant
arrays_are_no_arguments = refl
