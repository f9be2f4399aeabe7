-- ===== src/Clock/Sections.antt =====
-- Timed sections: what `Tik` and `Tak` do together.
use distributed_math_arh.Prelude.{
  ◌≡◌, refl, ap, ◌∙◌, List, [], ◌∷◌, Option, none, some, ◌==◌, string_eq, if◌then◌else◌, arith, ◌↔◌,
  Bool, false, ◌||◌, ◌+◌, ◌%◌, ◌^◌,
}
use distributed_math_arh.Prelude.Dict.{lookup, lookup-insert, lookup-insert_self}
use distributed_math_arh.Outcome.{Outcome, ok, ◌>>=◌}
use distributed_math_arh.Clock.Keys.{Location, location_eq}
use distributed_math_arh.Clock.{
  ClockArray, TimeStore, or_unset, tik, tak, tak_top, finish, section_id, measured, reset,
}

-- Measured sections in the order of the program: each has those that run inside it, and is followed
-- by others.
pub data Sections (In : Type 0) : Type 0 where
  done : Sections In
  timed : Location → Location → In → In → Sections In → Sections In → Sections In

abbrev pub opens : {In : Type 0} → Location → Sections In → Bool
opens id done = false
opens id (timed start stop t t' inner later) = start == id || opens id inner || opens id later

-- Each section is ended in the function, file and thread that opened it, and is not opened again at
-- the same place before that.
abbrev pub IsPaired : {In : Type 0} → Sections In → Type 0
IsPaired done = Unit
IsPaired (timed start stop t t' inner later) =
    (start.function ≡ stop.function)
    × (start.file ≡ stop.file)
    × (start.thread ≡ stop.thread)
    × (opens start inner ≡ false)
    × IsPaired inner
    × IsPaired later

module _ {Out In : Type 0} (add : Out → Out → Out) (time_converter : In → In → Out)
    (unset : In) where
  abbrev tik' : ClockArray Out In → Location → In → ClockArray Out In
  tik' = tik add time_converter unset

  abbrev tak' : ClockArray Out In → Location → In → Outcome (ClockArray Out In)
  tak' = tak add time_converter unset

  -- A section that is opened at one place and ended at a place of the same function, file and thread is
  -- measured: `Tak` succeeds, the stack is as it was before `Tik`, the timer of the place where the
  -- section was opened is given the time in between and one more measurement, and every other timer
  -- is as it was.
  pub tak-tik :
      (c : ClockArray Out In) (start stop other : Location) (t t' : In)
      → start.function ≡ stop.function
      → start.file ≡ stop.file
      → start.thread ≡ stop.thread
      → (c' : ClockArray Out In) × (tak' (tik' c start t) stop t' ≡ ok c')
        × (c'.to_tak ≡ c.to_tak)
        × (lookup other c'.timers ≡ (
            if start == other
            then some
                (measured add time_converter unset (lookup start c.timers) (time_converter t' t))
            else lookup other c.timers))
  unfolding tik tak
  tak-tik c start stop other t t' f g h =
      let e : section_id start stop ≡ start = ground (arith, f, g, h) in
      (
        finish add time_converter unset (tik' c start t) start c.to_tak t',
        ground (arith, f, e, string_eq.beq_iff start.function stop.function),
        refl,
        rw (lookup-insert_self start t c.starting_timers) (
            lookup-insert start other
              (measured add time_converter unset (lookup start c.timers) (time_converter t' t))
              c.timers),
      )

  abbrev pub run : ClockArray Out In → Sections In → Outcome (ClockArray Out In)
  run c done = ok c
  run c (timed start stop t t' inner later) = do
    c₁ ← run (tik' c start t) inner
    c₂ ← tak' c₁ stop t'
    run c₂ later

  tak_paired :
      (c : ClockArray Out In) (start stop : Location) (t' : In) (rest : List Location)
      → c.to_tak ≡ start ∷ rest
      → start.function ≡ stop.function
      → tak' c stop t' ≡ ok (finish add time_converter unset c (section_id start stop) rest t')
  unfolding tak
  tak_paired c start stop t' rest e f =
      ap (λ ls. tak_top add time_converter unset c ls stop t') e
      ∙ ground (arith, f, string_eq.beq_iff start.function stop.function)

  -- A timer after one more measurement
  abbrev pub again : Option (TimeStore Out) → Out → TimeStore Out
  again none time = record { time = time; count = 1 }
  again (some t) time = record { time = add t.time time; count = (t.count + 1) % 2 ^ 64 }

  -- The timer of a place after sections, from what it was before: each section that was opened there
  -- adds, when it ends, the time from its beginning to its end.
  abbrev pub timer_after : Location → Option (TimeStore Out) → Sections In → Option (TimeStore Out)
  timer_after id timer done = timer
  timer_after id timer (timed start stop t t' inner later) =
      let shown = timer_after id timer inner in
      timer_after id (if start == id then some (again shown (time_converter t' t)) else shown) later

  abbrev after : ClockArray Out In → Sections In → ClockArray Out In
  after c done = c
  after c (timed start stop t t' inner later) =
      after (finish add time_converter unset (after (tik' c start t) inner) start c.to_tak t') later

  again-measured :
      (timer : Option (TimeStore Out)) (time : Out)
      → measured add time_converter unset timer time ≡ again timer time
  again-measured none time = refl
  again-measured (some t) time = refl

  after_runs :
      (c : ClockArray Out In) (sections : Sections In)
      → IsPaired sections
      → (run c sections ≡ ok (after c sections)) × ((after c sections).to_tak ≡ c.to_tak)
  unfolding tik
  after_runs c done p = (refl, refl)
  after_runs c (timed start stop t t' inner later) (f, g, h, unopened, p, q) =
      let e : section_id start stop ≡ start = ground (arith, f, g, h) in
      let c₁ = after (tik' c start t) inner in
      let (e₁, s₁) = after_runs (tik' c start t) inner p in
      let (e₂, s₂) = after_runs (finish add time_converter unset c₁ start c.to_tak t') later q in
      (
        rw (e₁, tak_paired c₁ start stop t' c.to_tak s₁ f)
            (ap (λ id. run (finish add time_converter unset c₁ id c.to_tak t') later) e ∙ e₂),
        s₂,
      )

  -- A time point stays where no section is opened at its place.
  starting_kept :
      (c : ClockArray Out In) (sections : Sections In) (id : Location)
      → opens id sections ≡ false
      → lookup id (after c sections).starting_timers ≡ lookup id c.starting_timers
  unfolding tik
  starting_kept c done id h = refl
  starting_kept c (timed start stop t t' inner later) id h =
      let c₁ = after (tik' c start t) inner in
      let c₂ = finish add time_converter unset c₁ start c.to_tak t' in
      ground (
        arith,
        starting_kept (tik' c start t) inner id,
        starting_kept c₂ later id,
        lookup-insert start id (or_unset add time_converter unset (lookup start c₁.starting_timers))
            c₁.starting_timers,
        lookup-insert start id t c.starting_timers,
      )

  timers_after :
      (c : ClockArray Out In) (sections : Sections In) (id : Location)
      → IsPaired sections
      → lookup id (after c sections).timers ≡ timer_after id (lookup id c.timers) sections
  unfolding tik
  timers_after c done id p = refl
  timers_after c (timed start stop t t' inner later) id (f, g, h, unopened, p, q) =
      let c₁ = after (tik' c start t) inner in
      let c₂ = finish add time_converter unset c₁ start c.to_tak t' in
      let began : or_unset add time_converter unset (lookup start c₁.starting_timers) ≡ t =
        ap (or_unset add time_converter unset) (
          starting_kept (tik' c start t) inner start unopened
          ∙ lookup-insert_self start t c.starting_timers) in
      let ended : lookup id c₂.timers ≡ (
          if start == id
          then some (again (lookup id c₁.timers) (time_converter t' t))
          else lookup id c₁.timers) =
        ground (
          arith,
          began,
          location_eq.beq_iff start id,
          again-measured (lookup start c₁.timers) (time_converter t' t),
          lookup-insert start id
              (measured add time_converter unset (lookup start c₁.timers) (
                time_converter t'
                  (or_unset add time_converter unset (lookup start c₁.starting_timers))))
              c₁.timers,
        ) in
      timers_after c₂ later id q
      ∙ ap (λ timer. timer_after id timer later)
          (ended
            ∙ ap (λ timer. if start == id then some (again timer (time_converter t' t)) else timer)
                (timers_after (tik' c start t) inner id p))

  -- Sections that are properly nested, each ended in the function, file and thread that opened it and not
  -- opened again at the same place before that, are all measured without an error, however deep they
  -- are: the stack is as it was, and the timer of every place has, for each section that was opened
  -- there, the time between its two calls added and one more measurement, modulo 2^64.
  pub paired_sections_run :
      (c : ClockArray Out In) (sections : Sections In) (id : Location)
      → IsPaired sections
      → (c' : ClockArray Out In) × (run c sections ≡ ok c')
        × (c'.to_tak ≡ c.to_tak)
        × (lookup id c'.timers ≡ timer_after id (lookup id c.timers) sections)
  paired_sections_run c sections id p =
      let (e, stack) = after_runs c sections p in
      (after c sections, e, stack, timers_after c sections id p)

  -- A reset succeeds exactly if no section is open, and leaves no timers.
  pub reset_iff :
      (c c' : ClockArray Out In)
      → (reset add time_converter unset c ≡ ok c')
        ↔ (c.to_tak ≡ []) × (c' ≡ record { timers = []; starting_timers = []; to_tak = [] })
  unfolding reset
  reset_iff c c' = ground arith
