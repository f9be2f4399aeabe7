-- ===== src/Clock/Keys.antt =====
-- `LocationType` and `LocationComparator` of utilLib/include/parallelUtils/timingUtils.h: the keys of
-- the timers. The array's five texts have names here.
use Prim.Native.String.{compare, String}
use Prim.Native.Nat.{Ordering}
use distributed_math_arh.Prelude.{
  Bool, true, false, not, ◌&&◌, ◌≡◌, ◌↔◌, List, [], ◌∷◌, Eq, ◌==◌, string_eq, arith, if◌then◌else◌,
}

pub record Location : Type 0 where
  pub function : String
  pub line : String
  pub column : String
  pub file : String
  pub thread : String

abbrev pub same_location : Location → Location → Bool
same_location a b =
    a.function == b.function
    && a.line == b.line
    && a.column == b.column
    && a.file == b.file
    && a.thread == b.thread

pub same_location_iff : (a b : Location) → (same_location a b ≡ true) ↔ (a ≡ b)
same_location_iff a b = ground (
  arith,
  string_eq.beq_iff a.function b.function,
  string_eq.beq_iff a.line b.line,
  string_eq.beq_iff a.column b.column,
  string_eq.beq_iff a.file b.file,
  string_eq.beq_iff a.thread b.thread,
)

instance abbrev pub location_eq : Eq Location
location_eq = record { beq = same_location; beq_iff = same_location_iff }

abbrev pub texts : Location → List String
texts a = a.function ∷ a.line ∷ a.column ∷ a.file ∷ a.thread ∷ []

abbrev pub text_gt : String → String → Bool
text_gt s t = elim (compare s t) [ Ordering.gt ↦ true | _ ↦ false ]

-- The loop over the positions.
unfoldable pub first_difference : List String → List String → Bool
first_difference (a ∷ xs) (b ∷ ys) =
    let rest = first_difference xs ys in if not (a == b) then text_gt b a else rest
first_difference _ _ = false

unfoldable pub location_comparator : Location → Location → Bool
unfolding first_difference
location_comparator a b = first_difference (texts a) (texts b)
