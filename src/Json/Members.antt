-- ===== src/Json/Members.antt =====
-- Members of JSON objects: what was set is read.
use distributed_math_arh.Prelude.{String, ◌≡◌, ◌==◌, string_eq, if◌then◌else◌, arith}
use distributed_math_arh.Json.{Json, Fields, field, no_fields, field_of, set_field}

-- A member reads as what was set last under its name, and the other members as before.
pub field_of-set_field :
    {F : Type 0} (name other : String) (new : Json F) (fs : Fields F)
    → field_of other (set_field name new fs) ≡ (if name == other then new else field_of other fs)
unfolding field_of set_field
field_of-set_field name other new no_fields = ground arith
field_of-set_field name other new (field key value later) = ground (
  arith,
  field_of-set_field name other new later,
  string_eq.beq_iff name other,
  string_eq.beq_iff key name,
  string_eq.beq_iff key other,
)
