-- ===== src/Enums/Examples.antt =====
-- Tests and instances for `Enums`.
use distributed_math_arh.Prelude.{String, ◌≡◌, refl}
use distributed_math_arh.Prelude.Dict.{lookup, insert}
use distributed_math_arh.Outcome.{ok, throw, invalid_option}
use distributed_math_arh.Enums.{
  fill, create_str_to_enum_map, create_enum_to_str_map, str_to_enum, enum_to_str,
}
use distributed_math_arh.Enums.Maps.{table_inverse, str_to_enum_unknown}
use distributed_math_arh.Enums.Network.{put_method, http_method_enum, http_method_table}
use distributed_math_arh.Enums.Tables.{
  exp_arhived, exp_status_enum, exp_status_mappings, exp_status_table,
}

table_inverse_example :
    (s : String) × (enum_to_str put_method (create_enum_to_str_map http_method_table.mappings)
      ≡ ok s)
    × (str_to_enum s (create_str_to_enum_map http_method_table.mappings) ≡ ok put_method)
table_inverse_example = table_inverse http_method_table put_method

archived : str_to_enum "archived" (create_str_to_enum_map exp_status_mappings) ≡ ok exp_arhived
unfolding str_to_enum create_str_to_enum_map fill insert lookup
archived = refl

str_to_enum_unknown_example :
    str_to_enum "arhived" (create_str_to_enum_map exp_status_mappings)
    ≡ throw (invalid_option "arhived")
unfolding lookup
str_to_enum_unknown_example =
    str_to_enum_unknown exp_status_mappings "arhived" exp_status_table.distinct_texts refl
