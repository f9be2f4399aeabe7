-- ===== src/Task/Json.antt =====
-- The JSON form of a task: `TestSolveParam::ToJson` and the constructor from JSON, with the casts of
-- `JsonVariant` (lib/network_shared/networkTypes.cpp). It is what the main node publishes and the workers read.
-- `args` is an unordered map and jsoncpp sorts the members of an object: here both keep the order in
-- which they were filled. The null members that `operator[]` adds to what is read are not kept.
use distributed_math_arh.Prelude.{ℕ, String, [], ◌∷◌, string_eq, get_or}
use distributed_math_arh.Prelude.Dict.{Dict, insert}
use distributed_math_arh.Outcome.{Outcome, ok, throw, logic_error, invalid_option, ◌>>=◌}
use distributed_math_arh.Json.{
  Json, Fields, array, object, uint, field, no_fields, item, no_items, list_of, member, as_unsigned,
  set_field,
}
use distributed_math_arh.Entities.{Reals, u32}
use distributed_math_arh.Task.{JsonVariant, TestSolveParam}

module _ {F : Type 0} where
  unfoldable pub variant_to_json : JsonVariant F → Json F
  variant_to_json JsonVariant.null = Json.null
  variant_to_json (JsonVariant.boolean b) = Json.boolean b
  variant_to_json (JsonVariant.int64 n) = Json.int n
  variant_to_json (JsonVariant.uint64 n) = Json.uint n
  variant_to_json (JsonVariant.real x) = Json.real x
  variant_to_json (JsonVariant.text s) = Json.text s

  -- Arrays and objects are refused, with the number of their type in jsoncpp.
  unfoldable pub json_to_variant : Json F → Outcome (JsonVariant F)
  json_to_variant Json.null = ok JsonVariant.null
  json_to_variant (Json.boolean b) = ok (JsonVariant.boolean b)
  json_to_variant (Json.int n) = ok (JsonVariant.int64 n)
  json_to_variant (Json.uint n) = ok (JsonVariant.uint64 n)
  json_to_variant (Json.real x) = ok (JsonVariant.real x)
  json_to_variant (Json.text s) = ok (JsonVariant.text s)
  json_to_variant (array xs) = throw (invalid_option "6")
  json_to_variant (object fs) = throw (invalid_option "7")

  -- val["args"][key] = ..., for each argument in turn
  unfoldable pub fill_fields : Fields F → Dict String (JsonVariant F) → Fields F
  fill_fields fs [] = fs
  fill_fields fs ((key, value) ∷ args) = fill_fields (set_field key (variant_to_json value) fs) args

  -- The member is there only if there is an argument.
  abbrev pub args_member : Dict String (JsonVariant F) → Fields F
  args_member [] = no_fields
  args_member (arg ∷ args) = field "args" (object (fill_fields no_fields (arg ∷ args))) no_fields

  unfoldable pub task_to_json : TestSolveParam F → Json F
  task_to_json ts = object (
      field "experiment_id" (uint ts.experiment_id) (
        field "N" (uint ts.system_size) (
          field "range" (array (item (uint ts.range_first) (item (uint ts.range_second) no_items)))
            (args_member ts.args))))

  -- val[i]
  unfoldable pub element : Json F → ℕ → Outcome (Json F)
  element Json.null i = ok Json.null
  element (array xs) i = ok (get_or (list_of xs) i Json.null)
  element _ i = throw logic_error

  abbrev pub dict_of : Fields F → Dict String (Json F)
  dict_of no_fields = []
  dict_of (field key value later) = (key, value) ∷ dict_of later

  -- vv.getMemberNames(), with the member of each name
  unfoldable pub members : Json F → Outcome (Dict String (Json F))
  members Json.null = ok []
  members (object fs) = ok (dict_of fs)
  members _ = throw logic_error

  unfoldable pub read_args :
      Dict String (JsonVariant F) → Dict String (Json F) → Outcome (Dict String (JsonVariant F))
  read_args args [] = ok args
  read_args args ((key, value) ∷ later) = do
    v ← json_to_variant value
    read_args (insert key v args) later

module _ {F : Type 0} (reals : Reals F) where
  -- asUInt(), of a value that was read
  abbrev pub read_unsigned : Json F → Outcome ℕ
  read_unsigned v = as_unsigned u32 (reals.to_unsigned u32) v

  unfoldable pub task_of_json : Json F → Outcome (TestSolveParam F)
  task_of_json val = do
    e ← member val "experiment_id"
    experiment ← read_unsigned e
    n ← member val "N"
    size ← read_unsigned n
    r ← member val "range"
    r₀ ← element r 0
    first ← read_unsigned r₀
    r₁ ← element r 1
    second ← read_unsigned r₁
    vv ← member val "args"
    fields ← members vv
    args ← read_args [] fields
    ok (record {
      experiment_id = experiment;
      system_size = size;
      range_first = first;
      range_second = second;
      args = args;
    })
