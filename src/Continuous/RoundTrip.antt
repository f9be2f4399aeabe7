-- ===== src/Continuous/RoundTrip.antt =====
-- Reading back what was written.
use distributed_math_arh.Prelude.{◌≡◌, Bool, List, map}
use distributed_math_arh.Outcome.{Outcome, ok}
use distributed_math_arh.Json.{Json}
use distributed_math_arh.Entities.{Reals}
use distributed_math_arh.Continuous.{JsonReader, continuous_to_json, reader_of}

module _ {F A : Type 0} (convert : Json F → Outcome A) (put : A → Json F) where
  abbrev pub IsKept : A → Type 0
  IsKept x = convert (put x) ≡ ok x

  module _ (reals : Reals F) where
    abbrev reading : List A → Bool → Bool → JsonReader A
    reading col print_size sizeless =
        reader_of reals convert (continuous_to_json (map put col) print_size sizeless)
