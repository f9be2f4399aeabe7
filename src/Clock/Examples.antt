-- ===== src/Clock/Examples.antt =====
-- Tests and instances for `Clock`.
use distributed_math_arh.Prelude.{
  ℕ, ◌+◌, ◌-◌, true, false, not, ◌&&◌, ◌≡◌, ◌↔◌, refl, [], ◌∷◌, some, string_eq,
}
use distributed_math_arh.Prelude.Dict.{lookup}
use distributed_math_arh.Outcome.{ok}
use distributed_math_arh.Clock.Keys.{Location, location_eq, location_comparator}
use distributed_math_arh.Clock.{ClockArray, tik, tak, reset, advance}
use distributed_math_arh.Clock.Order.{location_comparator_equivalence, location_comparator_trans}
use distributed_math_arh.Clock.Sections.{done, timed, run, tak-tik, paired_sections_run, reset_iff}
use distributed_math_arh.Clock.Merge.{advance_sums}

abbrev here : Location
here = record { function = "solve"; line = "10"; column = "3"; file = "a.cpp"; thread = "1" }

abbrev there : Location
there = record here { line = "12" }

abbrev third : Location
third = record here { line = "20" }

abbrev sum : ℕ → ℕ → ℕ
sum a b = a + b

abbrev between : ℕ → ℕ → ℕ
between later earlier = later - earlier

abbrev empty : ClockArray ℕ ℕ
empty = record { timers = []; starting_timers = []; to_tak = [] }

abbrev used : ClockArray ℕ ℕ
used = record empty { timers = (here, record { time = 4; count = 1 }) ∷ [] }

one_section_runs :
    (c' : ClockArray ℕ ℕ) × (tak sum between 0 (tik sum between 0 used here 5) there 8 ≡ ok c')
    × (c'.to_tak ≡ [])
    × (lookup here c'.timers ≡ some (record { time = 7; count = 2 }))
unfolding lookup
one_section_runs = tak-tik sum between 0 used here there here 5 8 refl refl refl

paired_sections_run_example :
    (c' : ClockArray ℕ ℕ) × (run sum between 0 used
        (timed here there 1 9 (timed there there 2 3 done done) (timed here here 10 12 done done))
      ≡ ok c')
    × (c'.to_tak ≡ [])
    × (lookup here c'.timers ≡ some (record { time = 14; count = 3 }))
unfolding lookup
paired_sections_run_example =
    paired_sections_run sum between 0 used
      (timed here there 1 9 (timed there there 2 3 done done) (timed here here 10 12 done done))
      here
      (refl, refl, refl, refl, (refl, refl, refl, refl, tt, tt), (refl, refl, refl, refl, tt, tt))

reset_iff_example : (reset sum between 0 used ≡ ok empty) ↔ (used.to_tak ≡ []) × (empty ≡ empty)
reset_iff_example = reset_iff sum between 0 used empty

location_comparator_equivalence_example :
    (not (location_comparator here there) && not (location_comparator there here)) ≡ false
location_comparator_equivalence_example = location_comparator_equivalence here there

location_comparator_trans_example : location_comparator here third ≡ true
unfolding location_comparator
location_comparator_trans_example = location_comparator_trans here there third refl refl

advance_sums_example :
    lookup here (advance sum between 0 used used).timers ≡ some (record { time = 8; count = 2 })
unfolding lookup
advance_sums_example = advance_sums sum between 0 used used here (refl, tt)
