-- ===== src/Meshes/Text/Examples.antt =====
-- Tests and instances for `Meshes.Text`, over the field of two elements.
use distributed_math_arh.Prelude.{◌≡◌, refl, arith, Bool, true, false, [], ◌∷◌, none}
use distributed_math_arh.Outcome.{throw, io_error, ◌>>=◌}
use distributed_math_arh.ConnectionString.{decimal}
use distributed_math_arh.Enums.Network.{serializable}
use distributed_math_arh.Numbers.Binary.{binary}
use distributed_math_arh.Meshes.{MeshCreator, construct_meshes}
use distributed_math_arh.Meshes.Text.{print_mesh, parse_mesh_from, print_dec, parse_dec}
use distributed_math_arh.Meshes.Text.Serializable.{parse_mesh_from-print_mesh}
use distributed_math_arh.Meshes.Text.Table.{printed_limits, parse_dec-print_dec}
use distributed_math_arh.Printing.{good_input}
use distributed_math_arh.Printing.Examples.{strokes, strokes-IsReadable, digits, digits-IsReadable}
use distributed_math_arh.Printing.Containers.{default_format}
use distributed_math_arh.Printing.Containers.Examples.{
  bits, any_ends, bits-IsReadableTo, plain_text,
}

abbrev two_by_one : MeshCreator Bool
two_by_one = record {
  dimensions = (2, 1);
  limits = (false, true, true, false);
  data_0 = true ∷ true ∷ [];
  data_1 = false ∷ true ∷ [];
  data_2 = true ∷ false ∷ [];
}

parse_mesh_from-print_mesh_example :
    (print_mesh strokes bits plain_text two_by_one serializable 6 true true default_format
      >>= λ text. parse_mesh_from strokes bits serializable none none (good_input text))
    ≡ construct_meshes two_by_one two_by_one.dimensions two_by_one.limits
parse_mesh_from-print_mesh_example =
    parse_mesh_from-print_mesh strokes bits plain_text any_ends (λ c h. refl) strokes-IsReadable
      (λ x. x) bits-IsReadableTo two_by_one 6 default_format true (false ∷ []) (omega arith) refl
      refl (omega arith) (λ x. [], λ x. tt, refl) tt tt (refl, tt) refl tt

empty_text :
    parse_mesh_from strokes bits serializable none none (good_input []) ≡ throw (io_error "6")
unfolding parse_mesh_from decimal
empty_text = refl

parse_dec-print_dec_example :
    (print_dec strokes digits two_by_one >>= λ text. parse_dec strokes digits (good_input text))
    ≡ construct_meshes two_by_one two_by_one.dimensions (printed_limits (λ x. x) two_by_one)
parse_dec-print_dec_example =
    parse_dec-print_dec strokes digits strokes-IsReadable (λ x. x) digits-IsReadable two_by_one
      (omega arith) (omega arith) refl refl refl
