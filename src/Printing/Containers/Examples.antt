-- ===== src/Printing/Containers/Examples.antt =====
-- Tests and instances for `Printing.Containers`: numbers of one digit are 0 and 1, and every character
-- ends them.
use distributed_math_arh.Prelude.{
  ℕ, ◌≡◌, refl, ap, arith, Bool, true, false, List, [], ◌∷◌, ◌++◌, nat_beq, if◌then◌else◌, none,
  some,
}
use distributed_math_arh.Outcome.{ok, throw, zero_size, ◌>>=◌}
use distributed_math_arh.Printing.{
  Input, good_input, Format, codes, parse_delim, read_delimiter, is_only_whitespace,
  match_characters,
}
use distributed_math_arh.Printing.Formats.{EFormat, after_spaces}
use distributed_math_arh.Printing.Examples.{after_spaces-append, strokes, strokes-IsReadable}
use distributed_math_arh.Printing.Containers.{
  MatrixType, print_solution, read_solution_as, print_coordinates, read_coordinates_as,
  default_format, one_dim_serialize, parse_one_dim, matrix_print_2d, parse_matrix, read_elements,
}
use distributed_math_arh.Printing.Containers.RoundTrip.{
  after_number, IsReadableTo, row_text, parse_one_dim-one_dim_serialize,
}
use distributed_math_arh.Enums.Network.{serializable, human_readable}
use distributed_math_arh.Numbers.Binary.{binary}
use distributed_math_arh.Printing.Containers.Solutions.{
  read_solution_as-print_solution, read_coordinates_as-print_coordinates,
}
use distributed_math_arh.Printing.Containers.Matrices.{more_rows, parse_matrix-matrix_print_2d}

abbrev bit_of : List ℕ → Bool × Input
bit_of [] = (false, record { rest = []; failed = true; ended = true })
bit_of (c ∷ cs) = (nat_beq c b'1', after_number cs)

abbrev pub bits : Format Bool
bits = record {
  show = λ x. (if x then b'1' else b'0') ∷ [];
  read = λ input. if input.failed then (false, input) else bit_of (after_spaces input.rest);
}

abbrev pub any_ends : ℕ → Bool
any_ends c = true

pub bits-IsReadableTo : (x : Bool) → IsReadableTo any_ends bits x x
bits-IsReadableTo true blanks tail h k = ap bit_of (after_spaces-append blanks b'1' tail h refl)
bits-IsReadableTo false blanks tail h k = ap bit_of (after_spaces-append blanks b'0' tail h refl)

-- Eigen's text without alignment
abbrev pub plain_text : EFormat → List (List Bool) → List ℕ
plain_text form [] = form.mat_prefix ++ form.mat_suffix
plain_text form (row ∷ rows) =
    form.mat_prefix
    ++ (form.row_prefix ++ row_text bits form (λ x. []) row (more_rows bits form [] (λ x. []) rows))

abbrev bracket_format : EFormat
bracket_format = record default_format {
  coeff_separator = codes ",";
  row_prefix = codes "[";
  row_suffix = codes "]";
  mat_suffix = codes "\n";
}

-- Without its size, [1,0,1] is read back.
parse_one_dim-one_dim_serialize_example :
    (after : Input) × ((one_dim_serialize strokes plain_text bracket_format false
          (true ∷ false ∷ true ∷ [])
        >>= λ text. parse_one_dim strokes bits bracket_format (some 3) (good_input text))
      ≡ ok (true ∷ false ∷ true ∷ [], after))
parse_one_dim-one_dim_serialize_example =
    parse_one_dim-one_dim_serialize bits strokes plain_text any_ends strokes-IsReadable (λ x. x)
      bits-IsReadableTo bracket_format false true (false ∷ true ∷ []) (λ x. [], λ x. tt, refl) refl
      refl refl (λ h. absurd (cc h))

abbrev two_rows : MatrixType Bool
two_rows = record { rows = 2; cols = 2; cells = (true ∷ false ∷ []) ∷ (false ∷ false ∷ []) ∷ [] }

parse_matrix-matrix_print_2d_example :
    (after : Input) × (parse_matrix strokes bits none
        (good_input (matrix_print_2d strokes plain_text default_format true two_rows))
      ≡ ok (two_rows, after))
parse_matrix-matrix_print_2d_example =
    parse_matrix-matrix_print_2d bits strokes plain_text any_ends strokes-IsReadable (λ x. x)
      bits-IsReadableTo default_format 2 (true ∷ false ∷ []) ((false ∷ false ∷ []) ∷ [])
      ([], λ x. [], tt, λ x. tt, refl) ((tt, tt, tt), ((refl, tt), (refl, tt)), (refl, refl), tt)
      (omega arith) (refl, (refl, tt))

-- With its size in front, the line feed stands before the bracket, which is then not found: every
-- element is read as 0.
size_before_bracket :
    (parse_one_dim strokes bits bracket_format none (good_input (codes "||.\n[1,1]")))
    ≡ ok (false ∷ false ∷ [], record { rest = codes "[1,1]"; failed = true; ended = false })
unfolding parse_one_dim read_elements parse_delim read_delimiter is_only_whitespace match_characters
size_before_bracket = refl

empty_is_refused :
    one_dim_serialize strokes plain_text default_format true [] ≡ throw (zero_size "collection")
unfolding one_dim_serialize
empty_is_refused = refl

read_solution_as-print_solution_example :
    (print_solution strokes bits plain_text serializable 6 bracket_format false
        (true ∷ false ∷ true ∷ true ∷ [])
      >>= λ text.
          read_solution_as strokes bits plain_text serializable bracket_format
            (some 4)
            (good_input text))
    ≡ ok (true ∷ false ∷ true ∷ true ∷ [])
read_solution_as-print_solution_example =
    read_solution_as-print_solution strokes bits plain_text any_ends (λ c h. refl)
      strokes-IsReadable (λ x. x) bits-IsReadableTo serializable 6 bracket_format false true
      (false ∷ true ∷ true ∷ []) ((λ x. [], λ x. tt, refl), refl, refl, refl, λ h. absurd (cc h))

read_coordinates_as-print_coordinates_example :
    (print_coordinates strokes bits plain_text human_readable 6 default_format true
        (true ∷ false ∷ [])
      >>= λ text.
          read_coordinates_as strokes bits plain_text human_readable default_format none
            (good_input text))
    ≡ ok (true ∷ false ∷ [])
read_coordinates_as-print_coordinates_example =
    read_coordinates_as-print_coordinates strokes bits plain_text any_ends (λ c h. refl)
      strokes-IsReadable (λ x. x) bits-IsReadableTo human_readable 6 default_format true true
      (false ∷ []) (omega arith)
