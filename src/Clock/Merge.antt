-- ===== src/Clock/Merge.antt =====
-- `advance`: the timers of one clock added to those of another.
use distributed_math_arh.Prelude.{◌≡◌, refl, ◌+◌, ◌%◌, ◌^◌, [], ◌∷◌, Option, none, some, arith}
use distributed_math_arh.Prelude.Dict.{Dict, lookup, insert, Distinct, lookup-insert}
use distributed_math_arh.Clock.Keys.{Location, location_eq}
use distributed_math_arh.Clock.{ClockArray, TimeStore, merged, advance_timers, advance}

module _ {Out In : Type 0} (add : Out → Out → Out) (time_converter : In → In → Out)
    (unset : In) where
  -- A timer of two clocks: both times and both counts together, where both have it.
  abbrev pub both : Option (TimeStore Out) → Option (TimeStore Out) → Option (TimeStore Out)
  both mine none = mine
  both none (some t) = some t
  both (some a) (some b) =
      some (record { time = add a.time b.time; count = (a.count + b.count) % 2 ^ 64 })

  both-merged :
      (mine : Option (TimeStore Out)) (t : TimeStore Out)
      → both mine (some t) ≡ some (merged add time_converter unset mine t)
  both-merged none t = refl
  both-merged (some a) t = refl

  advance_timers_lem :
      (mine others : Dict Location (TimeStore Out)) (id : Location)
      → Distinct others
      → lookup id (advance_timers add time_converter unset mine others)
        ≡ both (lookup id mine) (lookup id others)
  unfolding advance_timers lookup
  advance_timers_lem mine [] id d = refl
  advance_timers_lem mine ((k, t) ∷ others) id d = ground (
    arith,
    location_eq.beq_iff k id,
    both-merged (lookup k mine) t,
    lookup-insert k id (merged add time_converter unset (lookup k mine) t) mine,
    advance_timers_lem (insert k (merged add time_converter unset (lookup k mine) t) mine) others id
        d.1,
  )

  -- After `advance` with a clock that has each place once, each place has the sum of both clocks' times
  -- and, modulo 2^64, of their counts where both have a timer, the one timer where only one of them has
  -- it, and none where neither has.
  pub advance_sums :
      (c other : ClockArray Out In) (id : Location)
      → Distinct other.timers
      → lookup id (advance add time_converter unset c other).timers
        ≡ both (lookup id c.timers) (lookup id other.timers)
  unfolding advance
  advance_sums c other id d = advance_timers_lem c.timers other.timers id d
