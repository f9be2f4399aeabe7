-- ===== src/Meshes/Json.antt =====
-- Meshes as JSON: `ToJson` of utilLib/lib/common/Printers.cpp and `FromJson` of lib/common/Parsers.cpp.
pub mod RoundTrip
use distributed_math_arh.Prelude.{
  ℕ, String, zero, suc, ◌*◌, ◌-◌, ◌%◌, ◌^◌, Bool, true, false, List, [], ◌∷◌, map, Option, none,
  some, ltb, if◌then◌else◌, u64, string_eq,
}
use distributed_math_arh.Outcome.{Outcome, ok, throw, logic_error, ◌>>=◌}
use distributed_math_arh.Numbers.{Numbers}
use distributed_math_arh.Json.{
  Json, Fields, Items, array, object, uint, real, field, no_fields, item, no_items, items_of,
  member, set_field,
}
use distributed_math_arh.Entities.{Reals}
use distributed_math_arh.Task.Json.{element, read_unsigned}
use distributed_math_arh.Meshes.{MeshCreator, tabulate, new_mesh_creator, construct_meshes}

-- The results of a loop that stops at the first exception.
abbrev pub collect : {A : Type 0} → List (Outcome A) → Outcome (List A)
collect [] = ok []
collect (a ∷ later) = do x ← a; xs ← collect later; ok (x ∷ xs)

module _ {F : Type 0} where
  -- ContinuousToJson(mesh.data_[2], false): the member is there only if there is an element.
  abbrev pub data_fields : List F → Fields F
  data_fields [] = no_fields
  data_fields (x ∷ xs) = field "data" (array (items_of (map real (x ∷ xs)))) no_fields

  abbrev pub dims_fields : Bool → ℕ × ℕ → Fields F → Fields F
  dims_fields false dims fs = fs
  dims_fields true dims fs =
      set_field "dimensions" (array (item (uint dims.0) (item (uint dims.1) no_items))) fs

  abbrev pub lims_fields : Bool → F × F × F × F → Fields F → Fields F
  lims_fields false lims fs = fs
  lims_fields true lims fs =
      set_field "limits"
        (array (
          item (real lims.0)
            (item (real lims.1) (item (real lims.2) (item (real lims.3) no_items)))))
        fs

  -- A value to which no member was assigned is null.
  abbrev pub value_of : Fields F → Json F
  value_of no_fields = Json.null
  value_of (field key value later) = object (field key value later)

  unfoldable pub mesh_to_json : MeshCreator F → Bool → Bool → Json F
  mesh_to_json mesh print_dims print_lims = value_of (
      lims_fields print_lims mesh.limits
        (dims_fields print_dims mesh.dimensions (data_fields mesh.data_2)))

module _ {F : Type 0} ⦃num : Numbers F⦄ where
  -- asDouble()
  abbrev pub as_double : Json F → Outcome F
  as_double Json.null = ok (num.lit 0)
  as_double (Json.boolean b) = ok (if b then num.lit 1 else num.lit 0)
  as_double (Json.int n) =
      ok (if ltb n (2 ^ 63) then num.lit n else num.negative (num.lit (2 ^ 64 - n)))
  as_double (uint n) = ok (num.lit n)
  as_double (real x) = ok x
  as_double _ = throw logic_error

  -- val[name][i].asDouble()
  abbrev pub double_at : Json F → String → ℕ → Outcome F
  double_at val name i = do v ← member val name; x ← element v i; as_double x

  module _ (reals : Reals F) where
    abbrev pub read_dims : Json F → Option (ℕ × ℕ) → Outcome (ℕ × ℕ)
    read_dims val (some dims) = ok dims
    read_dims val none = do
      d ← member val "dimensions"
      x ← element d 0
      first ← read_unsigned reals x
      y ← element d 1
      second ← read_unsigned reals y
      ok (first, second)

    abbrev pub read_lims : Json F → Option (F × F × F × F) → Outcome (F × F × F × F)
    read_lims val (some lims) = ok lims
    read_lims val none = do
      a ← double_at val "limits" 0
      b ← double_at val "limits" 1
      c ← double_at val "limits" 2
      d ← double_at val "limits" 3
      ok (a, b, c, d)

    unfoldable pub mesh_of_json :
        Json F → Option (ℕ × ℕ) → Option (F × F × F × F) → Outcome (MeshCreator F)
    mesh_of_json val dim_opt lim_opt = do
      dims ← read_dims val dim_opt
      lims ← read_lims val lim_opt
      mm ← construct_meshes (new_mesh_creator true) dims lims
      values ← collect (tabulate (dims.0 * dims.1 % u64) (λ i. double_at val "data" i))
      ok (record mm { data_2 = values })
