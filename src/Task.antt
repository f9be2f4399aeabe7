-- ===== src/Task.antt =====
-- computationalLib/include/network_shared/networkTypes.h and lib/network_shared/networkTypes.cpp:
-- the task that the main node cuts into blocks of iterations (`TestSolveParam`).
pub mod Slice
pub mod Json
pub mod RoundTrip
pub mod Examples
use distributed_math_arh.Prelude.{
  ℕ, ◌+◌, String, Bool, ◌||◌, List, ltb, nat_beq, if◌then◌else◌, add64, sub64,
}
use distributed_math_arh.Prelude.Dict.{Dict}
use distributed_math_arh.Outcome.{Outcome, Exception, out_of_range, ok, throw}

-- `JsonVariant`. The type of `double` is a parameter; the integers are bit patterns below 2^64.
pub data JsonVariant (F : Type 0) : Type 0 where
  null : JsonVariant F
  boolean : Bool → JsonVariant F
  int64 uint64 : ℕ → JsonVariant F
  real : F → JsonVariant F
  text : String → JsonVariant F

-- `range` is [range_first, range_second], both ends included.
pub record TestSolveParam (F : Type 0) : Type 0 where
  pub experiment_id : ℕ
  pub system_size : ℕ
  pub range_first : ℕ
  pub range_second : ℕ
  pub args : Dict String (JsonVariant F)

module _ {F : Type 0} where
  unfoldable pub range_size : TestSolveParam F → ℕ
  range_size ts = add64 (sub64 ts.range_second ts.range_first) 1

  -- The block that is cut off, and the task that stays behind.
  unfoldable pub slice_away : TestSolveParam F → ℕ → Outcome (TestSolveParam F × TestSolveParam F)
  slice_away ts iter_count =
      if nat_beq iter_count 0 || ltb ts.range_second (add64 ts.range_first iter_count)
      then throw (out_of_range iter_count 1 (range_size ts))
      else ok (
        record ts { range_second = sub64 (add64 ts.range_first iter_count) 1 },
        record ts { range_first = add64 ts.range_first iter_count },
      )
