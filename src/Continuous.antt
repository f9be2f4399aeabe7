-- ===== src/Continuous.antt =====
-- One-dimensional containers as JSON: `ContinuousToJson` of utilLib/include/common/Printers.h and
-- `JsonToContinuous` of utilLib/include/common/Parsers.h. The conversions of one element, `as<T>()` of
-- jsoncpp and its constructor from T, are arguments.
pub mod RoundTrip
pub mod Examples
use distributed_math_arh.Prelude.{
  ℕ, zero, suc, Bool, true, false, List, [], ◌∷◌, Option, none, some, length, if◌then◌else◌,
}
use distributed_math_arh.Outcome.{Outcome, ok, ◌>>=◌}
use distributed_math_arh.Json.{
  Json, null, array, object, uint, Fields, field, no_fields, items_of, elements, member, set_field,
}
use distributed_math_arh.Entities.{Reals}
use distributed_math_arh.Task.Json.{element, read_unsigned}

-- What is read of a JSON value, each with the error that jsoncpp may raise: val.size(),
-- val["size"].asUInt(), val[i].as<T>() and val["data"][i].as<T>().
pub record JsonReader (A : Type 0) : Type 0 where
  pub size : ℕ
  pub size_field : Outcome ℕ
  pub entry : ℕ → Outcome A
  pub data_entry : ℕ → Outcome A

-- A flag given where a size is expected: `bool` converts to `std::optional<size_t>`.
abbrev pub size_of_bool : Bool → Option ℕ
size_of_bool true = some 1
size_of_bool false = some 0

module _ {A : Type 0} where
  -- for (int i = 0; i < size; ++i) res[i] = at(i), from i on
  unfoldable pub read_entries : ℕ → (ℕ → Outcome A) → ℕ → Outcome (List A)
  read_entries zero at i = ok []
  read_entries (suc n) at i = do x ← at i; xs ← read_entries n at (suc i); ok (x ∷ xs)

  abbrev pub size_or_field : JsonReader A → Option ℕ → Bool → Outcome ℕ
  size_or_field val (some size) sizeless_format = ok size
  size_or_field val none true = ok val.size
  size_or_field val none false = val.size_field

  unfoldable pub json_to_continuous : JsonReader A → Option ℕ → Bool → Outcome (List A)
  json_to_continuous val sz sizeless_format = do
    size ← size_or_field val sz sizeless_format
    read_entries size (if sizeless_format then val.entry else val.data_entry) 0

module _ {F : Type 0} where
  unfoldable pub reader_of : {A : Type 0} → Reals F → (Json F → Outcome A) → Json F → JsonReader A
  reader_of reals convert val = record {
    size = length (elements val);
    size_field = (do v ← member val "size"; read_unsigned reals v);
    entry = λ i. (do x ← element val i; convert x);
    data_entry = λ i. (do v ← member val "data"; x ← element v i; convert x);
  }

  -- A value into which nothing is written stays null.
  abbrev pub object_of : Fields F → Json F
  object_of no_fields = null
  object_of (field name value later) = object (field name value later)

  abbrev pub array_of : List (Json F) → Json F
  array_of [] = null
  array_of (x ∷ xs) = array (items_of (x ∷ xs))

  abbrev pub set_data : List (Json F) → Fields F → Fields F
  set_data [] fs = fs
  set_data (x ∷ xs) fs = set_field "data" (array (items_of (x ∷ xs))) fs

  unfoldable pub continuous_to_json : List (Json F) → Bool → Bool → Json F
  continuous_to_json col print_size true = array_of col
  continuous_to_json col true false =
      object_of (set_data col (set_field "size" (uint (length col)) no_fields))
  continuous_to_json col false false = object_of (set_data col no_fields)
