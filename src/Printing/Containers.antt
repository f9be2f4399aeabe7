-- ===== src/Printing/Containers.antt =====
-- One-dimensional containers and matrices as text: OneDimSerialize, MatrixPrint1D, MatrixPrint2D of
-- Printers.h and Printers.cpp, ParseOneDim and ParseMatrix of Parsers.h and Parsers.cpp. The text that
-- Eigen makes of the rows of a matrix in a format is an argument.
pub mod RoundTrip
pub mod Matrices
pub mod Solutions
pub mod Examples
use distributed_math_arh.Prelude.{
  ℕ, zero, suc, ◌*◌, Bool, true, false, List, [], ◌∷◌, ◌++◌, map, Option, none, some, length,
  get_or, nat_beq, if◌then◌else◌,
}
use distributed_math_arh.Outcome.{Outcome, ok, throw, io_error, zero_size, ◌>>=◌}
use distributed_math_arh.ConnectionString.{decimal}
use distributed_math_arh.Numbers.{Numbers}
use distributed_math_arh.Enums.Network.{IoFormat, serializable, human_readable}
use distributed_math_arh.Printing.{
  Input, rdstate, Format, codes, parse_delim, print_solution_format_1, parse_solution,
  print_coordinates_2, parse_coordinates,
}
use distributed_math_arh.Printing.Formats.{EFormat, ios_state_scientific}

-- EFormat()
abbrev pub default_format : EFormat
default_format = record {
  precision = 4294967295;
  flags = 0;
  coeff_separator = codes " ";
  row_separator = codes "\n";
  row_prefix = [];
  row_suffix = [];
  mat_prefix = [];
  mat_suffix = [];
  fill = b' ';
}

-- A matrix of `rows` times `cols` elements, row by row
pub record MatrixType (F : Type 0) : Type 0 where
  pub rows : ℕ
  pub cols : ℕ
  pub cells : List (List F)

module _ {F : Type 0} ⦃num : Numbers F⦄ where
  -- Column j, j + 1, ..., of `left` columns, one after the other.
  unfoldable pub columns_from : List (List F) → ℕ → ℕ → List F
  columns_from cells j zero = []
  columns_from cells j (suc left) =
      map (λ row. get_or row j (num.lit 0)) cells ++ columns_from cells (suc j) left

module _ {F : Type 0} (number : Format F) where
  -- The elements, with the separator between two of them.
  unfoldable pub read_elements : EFormat → ℕ → Input → List F × Input
  read_elements form zero input = ([], input)
  read_elements form (suc zero) input = let (x, after) = number.read input in (x ∷ [], after)
  read_elements form (suc (suc n)) input =
      let (x, after) = number.read input in
      let later = read_elements form (suc n) (parse_delim form.coeff_separator after).1 in
      (x ∷ later.0, later.1)

  -- A row of `cols` elements, and `rows` of these.
  unfoldable pub read_row : ℕ → Input → List F × Input
  read_row zero input = ([], input)
  read_row (suc cols) input =
      let (x, after) = number.read input in
      let later = read_row cols after in (x ∷ later.0, later.1)

  unfoldable pub read_rows : ℕ → ℕ → Input → List (List F) × Input
  read_rows cols zero input = ([], input)
  read_rows cols (suc rows) input =
      let (row, after) = read_row cols input in
      let later = read_rows cols rows after in (row ∷ later.0, later.1)

abbrev pub sized_text : Format ℕ → Bool → ℕ → List ℕ → List ℕ
sized_text count print_size n text = if print_size then count.show n ++ b'\n' ∷ text else text

module _ {F : Type 0} (count : Format ℕ) (eigen_text : EFormat → List (List F) → List ℕ) where
  -- The row vector is made first, and refused for a container without elements.
  unfoldable pub one_dim_serialize : EFormat → Bool → List F → Outcome (List ℕ)
  one_dim_serialize form print_size [] = throw (zero_size "collection")
  one_dim_serialize form print_size (x ∷ col) =
      ok (sized_text count print_size (length (x ∷ col)) (eigen_text form ((x ∷ col) ∷ [])))

  -- The elements are flattened in the order in which Eigen stores them, column by column.
  unfoldable pub matrix_print_1d : ⦃num : Numbers F⦄ → EFormat → Bool → MatrixType F → List ℕ
  matrix_print_1d form print_size matr =
      sized_text count print_size (matr.rows * matr.cols)
        (eigen_text form (columns_from matr.cells 0 matr.cols ∷ []))

  unfoldable pub matrix_print_2d : EFormat → Bool → MatrixType F → List ℕ
  matrix_print_2d form print_dims matr =
      let text = eigen_text form matr.cells in
      if print_dims
      then count.show matr.rows ++ b'\t' ∷ (count.show matr.cols ++ b'\n' ∷ text)
      else text

module _ {F : Type 0} (count : Format ℕ) (number : Format F) where
  abbrev pub read_size : Option ℕ → Input → ℕ × Input
  read_size none input = count.read input
  read_size (some size) input = (size, input)

  -- The container, and the stream after it
  unfoldable pub parse_one_dim : EFormat → Option ℕ → Input → Outcome (List F × Input)
  parse_one_dim form size_opt input =
      let (size, after) = read_size size_opt input in
      if after.failed
      then throw (io_error (decimal 1 (rdstate after)))
      else (let elements = read_elements number form size (parse_delim form.row_prefix after).1 in
          ok (elements.0, (parse_delim form.row_suffix elements.1).1))

  abbrev pub read_dims : Option (ℕ × ℕ) → Input → ℕ × ℕ × Input
  read_dims (some (rows, cols)) input = (rows, cols, input)
  read_dims none input =
      let (rows, after) = count.read input in
      let (cols, later) = count.read after in (rows, cols, later)

  -- The format is not used.
  unfoldable pub parse_matrix : Option (ℕ × ℕ) → Input → Outcome (MatrixType F × Input)
  parse_matrix dim_opt input =
      let (rows, cols, after) = read_dims dim_opt input in
      if after.failed
      then throw (io_error (decimal 1 (rdstate after)))
      else (let read = read_rows number cols rows after in
          ok (record { rows = rows; cols = cols; cells = read.0 }, read.1))

module _ {F : Type 0} ⦃num : Numbers F⦄ (count : Format ℕ) (number : Format F)
    (eigen_text : EFormat → List (List F) → List ℕ) where
  -- `precision` is that of the stream.
  unfoldable pub print_solution : IoFormat → ℕ → EFormat → Bool → List F → Outcome (List ℕ)
  print_solution serializable precision form print_size sol =
      one_dim_serialize count eigen_text form print_size sol
  print_solution human_readable precision form print_size sol = do
    _ ← ios_state_scientific precision
    ok (print_solution_format_1 count number sol)

  unfoldable pub print_coordinates : IoFormat → ℕ → EFormat → Bool → List F → Outcome (List ℕ)
  print_coordinates serializable precision form print_size coord =
      one_dim_serialize count eigen_text form print_size coord
  print_coordinates human_readable precision form print_size coord = do
    _ ← ios_state_scientific precision
    ok (print_coordinates_2 count number coord)

  -- The streams are not kept.
  unfoldable pub read_solution_as : IoFormat → EFormat → Option ℕ → Input → Outcome (List F)
  read_solution_as serializable form size_opt input = do
    (sol, after) ← parse_one_dim count number form size_opt input
    ok sol
  read_solution_as human_readable form size_opt input = parse_solution count number input

  unfoldable pub read_coordinates_as : IoFormat → EFormat → Option ℕ → Input → Outcome (List F)
  read_coordinates_as serializable form size_opt input = do
    (coord, after) ← parse_one_dim count number form size_opt input
    ok coord
  read_coordinates_as human_readable form size_opt input = parse_coordinates count number input
