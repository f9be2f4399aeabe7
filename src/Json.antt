-- ===== src/Json.antt =====
-- JSON values, as far as the code uses jsoncpp: members, and the conversions with their errors.
-- Numbers are bit patterns below 2^64; how a double is printed is an argument.
pub mod Members
use Prim.Native.String.{◌++◌ as ◌<>◌}
use distributed_math_arh.Prelude.{
  ℕ, String, Bool, true, false, not, List, [], ◌∷◌, ◌==◌, string_eq, if◌then◌else◌, ltb, nat_beq,
  ◌^◌, ◌-◌,
}
use distributed_math_arh.Outcome.{Outcome, ok, throw, logic_error, ◌>>=◌}
use distributed_math_arh.ConnectionString.{decimal}

mutual
  pub data Json (F : Type 0) : Type 0 where
    null : Json F
    boolean : Bool → Json F
    int uint : ℕ → Json F
    real : F → Json F
    text : String → Json F
    array : Items F → Json F
    object : Fields F → Json F

  pub data Items (F : Type 0) : Type 0 where
    no_items : Items F
    item : Json F → Items F → Items F

  -- In the order in which they were set; a name stands once.
  pub data Fields (F : Type 0) : Type 0 where
    no_fields : Fields F
    field : String → Json F → Fields F → Fields F

module _ {F : Type 0} where
  unfoldable pub field_of : String → Fields F → Json F
  field_of name no_fields = null
  field_of name (field key value later) =
      let rest = field_of name later in if key == name then value else rest

  unfoldable pub set_field : String → Json F → Fields F → Fields F
  set_field name new no_fields = field name new no_fields
  set_field name new (field key value later) =
      let rest = set_field name new later in
      if key == name then field key new later else field key value rest

  -- val[name], to read: null where there is no such member, an error if `val` has no members.
  unfoldable pub member : Json F → String → Outcome (Json F)
  unfolding field_of
  member null name = ok null
  member (object fs) name = ok (field_of name fs)
  member _ name = throw logic_error

  abbrev pub list_of : Items F → List (Json F)
  list_of no_items = []
  list_of (item x xs) = x ∷ list_of xs

  abbrev pub items_of : List (Json F) → Items F
  items_of [] = no_items
  items_of (x ∷ xs) = item x (items_of xs)

  abbrev pub values_of : Fields F → List (Json F)
  values_of no_fields = []
  values_of (field key value later) = value ∷ values_of later

  -- for (auto &item : val)
  unfoldable pub elements : Json F → List (Json F)
  elements (array xs) = list_of xs
  elements (object fs) = values_of fs
  elements _ = []

  unfoldable pub is_array : Json F → Bool
  is_array (array xs) = true
  is_array _ = false

  unfoldable pub as_string : (F → String) → Json F → Outcome String
  as_string show null = ok ""
  as_string show (boolean b) = ok (if b then "true" else "false")
  as_string show (int n) =
      ok (if ltb n (2 ^ 63) then decimal 20 n else "-" <> decimal 20 (2 ^ 64 - n))
  as_string show (uint n) = ok (decimal 20 n)
  as_string show (real x) = ok (show x)
  as_string show (text s) = ok s
  as_string show _ = throw logic_error

  -- A number that does not fit, and a text, are errors; of a double, whether it fits is an argument.
  unfoldable pub as_unsigned : ℕ → (F → Outcome ℕ) → Json F → Outcome ℕ
  as_unsigned limit convert null = ok 0
  as_unsigned limit convert (boolean b) = ok (if b then 1 else 0)
  as_unsigned limit convert (int n) =
      if ltb n (2 ^ 63)
      then (if ltb n limit then ok n else throw logic_error)
      else throw logic_error
  as_unsigned limit convert (uint n) = if ltb n limit then ok n else throw logic_error
  as_unsigned limit convert (real x) = convert x
  as_unsigned limit convert _ = throw logic_error

  unfoldable pub as_bool : (F → Bool) → Json F → Outcome Bool
  as_bool nonzero null = ok false
  as_bool nonzero (boolean b) = ok b
  as_bool nonzero (int n) = ok (not (nat_beq n 0))
  as_bool nonzero (uint n) = ok (not (nat_beq n 0))
  as_bool nonzero (real x) = ok (nonzero x)
  as_bool nonzero _ = throw logic_error
