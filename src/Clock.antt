-- ===== src/Clock.antt =====
-- utilLib/include/parallelUtils/ClockArray.h: the array of timers, and the order of its keys
-- (utilLib/lib/parallelUtils/timingUtils.cpp). A call is given the location that the template's
-- converter makes of its source location. Each method holds the mutex throughout, so one call is one step.
pub mod Keys
pub mod Order
pub mod Sections
pub mod Merge
pub mod Examples
use distributed_math_arh.Prelude.{
  ℕ, String, Bool, true, false, not, ◌||◌, ◌&&◌, List, [], ◌∷◌, Option, none, some, ◌==◌, string_eq,
  if◌then◌else◌, add64,
}
use distributed_math_arh.Prelude.Dict.{Dict, lookup, contains, insert, erase}
use distributed_math_arh.Outcome.{Outcome, ok, throw, logic_error, ◌>>=◌}
use distributed_math_arh.Clock.Keys.{Location, location_eq}

pub record TimeStore (Out : Type 0) : Type 0 where
  pub time : Out
  pub count : ℕ

-- `to_tak` is the stack, its top first.
pub record ClockArray (Out In : Type 0) : Type 0 where
  pub timers : Dict Location (TimeStore Out)
  pub starting_timers : Dict Location In
  pub to_tak : List Location

-- The id of the section: where it was opened, with the file and the thread of the call that ends it.
abbrev pub section_id : Location → Location → Location
section_id top id = record id { line = top.line; column = top.column }

-- The template's parameters: the sum and the difference of times, and a time point by default.
module _ {Out In : Type 0} (add : Out → Out → Out) (time_converter : In → In → Out)
    (unset : In) where
  unfoldable pub tik : ClockArray Out In → Location → In → ClockArray Out In
  tik c id now = record c {
    starting_timers = insert id now c.starting_timers;
    to_tak = id ∷ c.to_tak;
  }

  -- timers_[id] after a measurement
  abbrev pub measured : Option (TimeStore Out) → Out → TimeStore Out
  measured none res = record { time = res; count = 1 }
  measured (some t) res = record { time = add t.time res; count = add64 t.count 1 }

  -- start_ing_timers_[id], which enters a default time point for an id that is not there
  abbrev pub or_unset : Option In → In
  or_unset none = unset
  or_unset (some t) = t

  abbrev pub finish : ClockArray Out In → Location → List Location → In → ClockArray Out In
  finish c id rest now =
      let began = or_unset (lookup id c.starting_timers) in
      record {
        timers = insert id (measured (lookup id c.timers) (time_converter now began)) c.timers;
        starting_timers = insert id began c.starting_timers;
        to_tak = rest;
      }

  abbrev pub tak_top :
      ClockArray Out In → List Location → Location → In → Outcome (ClockArray Out In)
  tak_top c [] id now = throw logic_error
  tak_top c (top ∷ rest) id now =
      if not (top.function == id.function)
      then throw logic_error
      else ok (finish c (section_id top id) rest now)

  unfoldable pub tak : ClockArray Out In → Location → In → Outcome (ClockArray Out In)
  tak c id now = tak_top c c.to_tak id now

  abbrev reset_stack : ClockArray Out In → List Location → Outcome (ClockArray Out In)
  reset_stack c [] = ok (record { timers = []; starting_timers = []; to_tak = [] })
  reset_stack c (top ∷ rest) = throw logic_error

  unfoldable pub reset : ClockArray Out In → Outcome (ClockArray Out In)
  reset c = reset_stack c c.to_tak

  unfoldable pub reset_timer : ClockArray Out In → Location → ClockArray Out In
  reset_timer c id = if contains id c.timers then record c { timers = erase id c.timers } else c

  unfoldable pub contains_timer : ClockArray Out In → Location → Bool
  contains_timer c id = contains id c.timers

  -- timers_[id] when the timers of another clock are added
  abbrev pub merged : Option (TimeStore Out) → TimeStore Out → TimeStore Out
  merged none other = other
  merged (some t) other = record { time = add t.time other.time; count = add64 t.count other.count }

  unfoldable pub advance_timers :
      Dict Location (TimeStore Out) → Dict Location (TimeStore Out) → Dict Location (TimeStore Out)
  advance_timers mine [] = mine
  advance_timers mine ((id, t) ∷ others) =
      advance_timers (insert id (merged (lookup id mine) t) mine) others

  unfoldable pub advance : ClockArray Out In → ClockArray Out In → ClockArray Out In
  unfolding advance_timers
  advance c other = record c { timers = advance_timers c.timers other.timers }
