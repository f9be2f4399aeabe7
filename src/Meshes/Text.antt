-- ===== src/Meshes/Text.antt =====
-- A mesh as text: PrintDec of lib/common/MeshCreator.cpp, PrintMesh of lib/common/Printers.cpp and
-- ParseMeshFrom of lib/common/Parsers.cpp.
pub mod Serializable
pub mod Lines
pub mod Table
pub mod Examples
use distributed_math_arh.Prelude.{
  ℕ, zero, suc, ◌+◌, ◌*◌, ◌-◌, ◌&&◌, Bool, true, false, List, [], ◌∷◌, ◌++◌, map, get_or, nat_beq,
  leb, ltb, length, ◌%◌, u64, Option, none, some, if◌then◌else◌,
}
use distributed_math_arh.Outcome.{Outcome, ok, throw, undefined, io_error, zero_size, ◌>>=◌}
use distributed_math_arh.ConnectionString.{decimal}
use distributed_math_arh.Enums.Network.{IoFormat, serializable, human_readable}
use distributed_math_arh.Numbers.{Numbers}
use distributed_math_arh.Meshes.{MeshCreator, new_mesh_creator, construct_meshes}
use distributed_math_arh.Printing.{Input, rdstate, set_failed, good, Format, codes, get_line, shown}
use distributed_math_arh.Printing.Formats.{EFormat, after_spaces, word_of, ios_state_scientific}
use distributed_math_arh.Printing.Containers.{default_format, columns_from, read_row, parse_one_dim}

abbrev word_skipped : List ℕ → Input
word_skipped [] = record { rest = []; failed = true; ended = true }
word_skipped (c ∷ cs) =
    let later = (word_of (c ∷ cs)).1 in
    record { rest = later; failed = false; ended = nat_beq (length later) 0 }

-- in >> dummy, for a std::string
unfoldable pub skip_word : Input → Input
skip_word input = if good input then word_skipped (after_spaces input.rest) else set_failed input

abbrev if_good : {A : Type 0} → A → Input → Outcome (A × Input)
if_good a input =
    if input.failed then throw (io_error (decimal 1 (rdstate input))) else ok (a, input)

abbrev pub title : List ℕ
title = codes "Функция I(phi,th)"

abbrev pub corner : List ℕ
corner = codes "phi\\th\t\t"

module _ {F : Type 0} ⦃num : Numbers F⦄ (count : Format ℕ) (number : Format F) where
  abbrev pub at : List F → ℕ → F
  at col i = get_or col i (num.lit 0)

  -- The elements f j, f (j + 1), ..., of which `left` follow the first, in one line.
  unfoldable pub entries : (ℕ → F) → ℕ → ℕ → List ℕ → List ℕ
  entries f j zero later = shown count number (f j) b'\n' later
  entries f j (suc left) later = shown count number (f j) b'\t' (entries f (suc j) left later)

  unfoldable pub dec_lines : MeshCreator F → ℕ → ℕ → List ℕ
  dec_lines mesh zero i = []
  dec_lines mesh (suc left) i =
      let later = dec_lines mesh left (suc i) in
      shown count number (at mesh.data_0 i) b'\t'
        (entries (λ j. at mesh.data_2 (j * mesh.dimensions.1 + i)) 0 (mesh.dimensions.0 - 1) later)

  -- Whether the arrays have the elements that are printed.
  abbrev pub has_elements : MeshCreator F → Bool
  has_elements mesh =
      let (ext0, ext1) = mesh.dimensions in
      ltb 0 ext0
      && ltb ((ext0 - 1) * ext1) (length mesh.data_1)
      && leb ext1 (length mesh.data_0)
      && leb (ext0 * ext1) (length mesh.data_2)

  unfoldable pub print_dec : MeshCreator F → Outcome (List ℕ)
  print_dec mesh =
      let (ext0, ext1) = mesh.dimensions in
      let lines = dec_lines mesh ext1 0 in
      let angles = entries (λ i. at mesh.data_1 (i * ext1)) 0 (ext0 - 1) lines in
      if has_elements mesh
      then ok (
          count.show ext0
          ++ b'\t' ∷ (count.show ext1 ++ b'\n' ∷ (title ++ b'\n' ∷ (corner ++ angles))))
      else undefined

  abbrev pub mesh_header : MeshCreator F → Bool → Bool → List ℕ → List ℕ
  mesh_header mesh print_dims print_lims later =
      let lims = mesh.limits in
      let limits =
        if print_lims
        then shown count number (lims.0) b'\t' (
            shown count number (lims.1) b'\n'
              (shown count number (lims.2) b'\t' (shown count number (lims.3) b'\n' later)))
        else later in
      if print_dims
      then count.show mesh.dimensions.0 ++ b'\t' ∷ (count.show mesh.dimensions.1 ++ b'\n' ∷ limits)
      else limits

  -- What is written before an exception is not kept.
  unfoldable pub print_mesh :
      (EFormat → List (List F) → List ℕ)
      → MeshCreator F
      → IoFormat
      → ℕ
      → Bool
      → Bool
      → EFormat
      → Outcome (List ℕ)
  print_mesh eigen_text mesh serializable precision print_dims print_lims form = do
    _ ← ios_state_scientific precision
    (if nat_beq (length mesh.data_2) 0
        then throw (zero_size "collection")
        else ok (mesh_header mesh print_dims print_lims (eigen_text form (mesh.data_2 ∷ []))))
  print_mesh eigen_text mesh human_readable precision print_dims print_lims form = do
    _ ← ios_state_scientific precision
    print_dec mesh

  abbrev pub read_dims : Option (ℕ × ℕ) → Input → Outcome ((ℕ × ℕ) × Input)
  read_dims (some dims) input = ok (dims, input)
  read_dims none input =
      let (rows, in_1) = count.read input in
      let (cols, in_2) = count.read in_1 in if_good (rows, cols) in_2

  abbrev pub read_lims : Option (F × F × F × F) → Input → Outcome ((F × F × F × F) × Input)
  read_lims (some lims) input = ok (lims, input)
  read_lims none input =
      let (a, in_1) = number.read input in
      let (b, in_2) = number.read in_1 in
      let (c, in_3) = number.read in_2 in
      let (d, in_4) = number.read in_3 in if_good (a, b, c, d) in_4

  unfoldable pub skip_numbers : ℕ → Input → Input
  skip_numbers zero input = input
  skip_numbers (suc n) input = skip_numbers n (number.read input).1

  -- The angle of each of `left` rows with its values.
  unfoldable pub read_grid : ℕ → ℕ → Input → List F × List (List F)
  read_grid cols zero input = ([], [])
  read_grid cols (suc left) input =
      let (angle, in_1) = number.read input in
      let (values, in_2) = read_row number cols in_1 in
      let later = read_grid cols left in_2 in (angle ∷ later.0, values ∷ later.1)

  -- The loop over dims[0] - 2 numbers ends only if there are two.
  unfoldable pub parse_dec : Input → Outcome (MeshCreator F)
  parse_dec input = do
    ((rows, cols), after) ← read_dims none input
    let (first, in_1) = number.read (skip_word (get_line (get_line after)))
    let (last, in_2) = number.read (skip_numbers (rows - 2) in_1)
    let (angles, values) = read_grid rows cols in_2
    let lims : F × F × F × F = (first, last, at angles 0, at angles (cols - 1))
    m ← if ltb rows 2 then undefined else construct_meshes (new_mesh_creator true) (rows, cols) lims
    construct_meshes (record m { data_2 = columns_from values 0 rows }) (rows, cols) lims

  -- The stream is not kept. The format of the containers is not used.
  unfoldable pub parse_mesh_from :
      IoFormat → Option (ℕ × ℕ) → Option (F × F × F × F) → Input → Outcome (MeshCreator F)
  parse_mesh_from serializable dim_opt lim_opt input = do
    (dims, in_1) ← read_dims dim_opt input
    (lims, in_2) ← read_lims lim_opt in_1
    (values, in_3) ← parse_one_dim count number default_format (some (dims.0 * dims.1 % u64)) in_2
    construct_meshes (record (new_mesh_creator true) { data_2 = values }) dims lims
  parse_mesh_from human_readable dim_opt lim_opt input = parse_dec input
