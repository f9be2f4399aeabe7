-- ===== src/Meshes/Text/Serializable.antt =====
-- A mesh that is written as rows of numbers is read back.
use mathlib.Core.List.{append_assoc}
use distributed_math_arh.Prelude.{
  ℕ, ◌*◌, ◌%◌, ◌<◌, ◌≤◌, map, ◌≡◌, refl, sym, ap, ◌∙◌, arith, Bool, true, false, List, [], ◌∷◌,
  ◌++◌, length, nat_beq, if◌then◌else◌, none, some, u64,
}
use distributed_math_arh.Outcome.{ok, throw, zero_size, ◌>>=◌, bind-ok}
use distributed_math_arh.Enums.Network.{serializable}
use distributed_math_arh.Numbers.{Numbers}
use distributed_math_arh.Meshes.{MeshCreator, new_mesh_creator, construct_meshes}
use distributed_math_arh.Meshes.Text.{mesh_header, print_mesh, parse_mesh_from, read_lims}
use distributed_math_arh.Meshes.Text.Lines.{next, dims_read}
use distributed_math_arh.Meshes.Text.Table.{nearly}
use distributed_math_arh.Printing.{Input, good_input, is_space, Format, shown}
use distributed_math_arh.Printing.Coordinates.{IsReadable, IsReadableAs}
use distributed_math_arh.Printing.Formats.{EFormat, default_prec}
use distributed_math_arh.Printing.Containers.{default_format, read_elements, parse_one_dim}
use distributed_math_arh.Printing.Containers.Solutions.{
  IsReadableTo-IsReadableAs, ios_state_scientific-ok,
}
use distributed_math_arh.Printing.Containers.RoundTrip.{
  Blank, Blank-append, Ends, IsReadableTo, Separates, row_text, WritesRow, delimiter_stays,
  read_elements_lem, finished,
}

constructed_over :
    {F : Type 0} ⦃num : Numbers F⦄ (mesh other : MeshCreator F) (data_2 : List F) (dims : ℕ × ℕ)
    (lims : F × F × F × F)
    → construct_meshes (record other { data_2 = data_2 }) dims lims
      ≡ construct_meshes (record mesh { data_2 = data_2 }) dims lims
unfolding construct_meshes
constructed_over mesh other data_2 dims lims = refl

module _ {F : Type 0} ⦃num : Numbers F⦄ (count : Format ℕ) (number : Format F)
    (eigen_text : EFormat → List (List F) → List ℕ) (ends : ℕ → Bool)
    (blank_ends : (c : ℕ) → is_space c ≡ true → ends c ≡ true)
    (counts : (n : ℕ) → IsReadable count n) (near : F → F)
    (numbers : (x : F) → IsReadableTo ends number x (near x)) where
  readable : (x : F) → IsReadableAs number x (near x)
  readable x = IsReadableTo-IsReadableAs ends number x (near x) blank_ends (numbers x)

  lims_read :
      (a b c d : F) (later : List ℕ)
      → read_lims count number none (
          good_input (
            b'\n'
            ∷ shown count number a b'\t' (
                shown count number b b'\n'
                  (shown count number c b'\t' (shown count number d b'\n' later)))))
        ≡ ok ((near a, near b, near c, near d), good_input (b'\n' ∷ later))
  lims_read a b c d later =
      let fourth = shown count number d b'\n' later in
      let third = shown count number c b'\t' fourth in
      rw
        (
          next count number counts near readable a b'\n' b'\t' (shown count number b b'\n' third)
              refl refl,
          next count number counts near readable b b'\t' b'\n' third refl refl,
          next count number counts near readable c b'\n' b'\t' fourth refl refl,
          next count number counts near readable d b'\t' b'\n' later refl refl,
        )
        refl

  values_read :
      (form : EFormat) (x : F) (xs : List F)
      → WritesRow number eigen_text form (x ∷ xs)
      → Blank form.mat_prefix
      → Blank form.row_prefix
      → Blank form.coeff_separator
      → Separates ends form.coeff_separator
      → Ends ends (form.row_suffix ++ form.mat_suffix)
      → (after : Input) × (parse_one_dim count number default_format
            (some (length (x ∷ xs)))
            (good_input (b'\n' ∷ eigen_text form ((x ∷ xs) ∷ [])))
          ≡ ok (map near (x ∷ xs), after))
  unfolding parse_one_dim
  values_read form x xs (pad, blank_pads, written) blank_before blank_prefix blank_separator
        separates stops =
      let row = row_text number form pad (x ∷ xs) (form.row_suffix ++ form.mat_suffix) in
      let text = form.mat_prefix ++ (form.row_prefix ++ row) in
      let input = b'\n' ∷ text in
      let elements =
        ap (λ t. (read_elements number default_format (length (x ∷ xs)) (good_input (b'\n' ∷ t))).0)
          (sym (append_assoc form.mat_prefix form.row_prefix row))
        ∙ read_elements_lem number ends near numbers form pad blank_pads default_format x xs
            (b'\n' ∷ (form.mat_prefix ++ form.row_prefix)) (form.row_suffix ++ form.mat_suffix)
            (λ cs. (
              form.coeff_separator,
              blank_separator,
              delimiter_stays default_format.coeff_separator (form.coeff_separator ++ cs)
                  (refl, tt),
            ))
            separates (refl, Blank-append form.mat_prefix form.row_prefix blank_before blank_prefix)
            stops in
      rw (written, delimiter_stays [] input tt)
        (finished number default_format (length (x ∷ xs)) (good_input input) (map near (x ∷ xs))
          elements)

  printed :
      (mesh : MeshCreator F) (precision : ℕ) (form : EFormat) (x : F) (xs : List F)
      → precision ≤ 10 * default_prec
      → mesh.data_2 ≡ x ∷ xs
      → print_mesh count number eigen_text mesh serializable precision true true form
        ≡ ok (mesh_header count number mesh true true (eigen_text form ((x ∷ xs) ∷ [])))
  unfolding print_mesh
  printed mesh precision form x xs p e =
      let text : List F → List ℕ =
        λ values. mesh_header count number mesh true true (eigen_text form (values ∷ [])) in
      let some_values : nat_beq (length (x ∷ xs)) 0 ≡ false = ground arith in
      bind-ok _ (ios_state_scientific-ok precision p)
      ∙ ap
          (λ values.
            if nat_beq (length values) 0 then throw (zero_size "collection") else ok (text values))
          e
      ∙ ap (λ b. if b then throw (zero_size "collection") else ok (text (x ∷ xs))) some_values

  -- Where the text of every number x is read as a number near x, and every count is read as itself, a
  -- mesh that has a value for each of its points, and at least one, is written with its dimensions and
  -- limits and is read back as the mesh of its own dimensions with the limits and the values near its
  -- own; where such a mesh cannot be constructed, reading fails in the same way. The conditions: the
  -- precision of the stream is at most 150; there are fewer than 2^64 points; Eigen writes the row as
  -- padded numbers between the delimiters of the format; the format's separator and what it puts before the
  -- row are blank; the separator and what follows the row begin with a character that ends a
  -- number; blanks end a number.
  pub parse_mesh_from-print_mesh :
      (mesh : MeshCreator F) (precision : ℕ) (form : EFormat) (x : F) (xs : List F)
      → precision ≤ 10 * default_prec
      → mesh.data_2 ≡ x ∷ xs
      → length (x ∷ xs) ≡ mesh.dimensions.0 * mesh.dimensions.1
      → length (x ∷ xs) < u64
      → WritesRow number eigen_text form (x ∷ xs)
      → Blank form.mat_prefix
      → Blank form.row_prefix
      → Blank form.coeff_separator
      → Separates ends form.coeff_separator
      → Ends ends (form.row_suffix ++ form.mat_suffix)
      → (print_mesh count number eigen_text mesh serializable precision true true form >>= λ text.
          parse_mesh_from count number serializable none none (good_input text))
        ≡ construct_meshes
            (nearly near mesh)
            mesh.dimensions
            (near mesh.limits.0, near mesh.limits.1, near mesh.limits.2, near mesh.limits.3)
  unfolding parse_mesh_from
  parse_mesh_from-print_mesh mesh precision form x xs p e size word written blank_before
        blank_prefix blank_separator separates stops =
      let (d0, d1) = mesh.dimensions in
      let (a, b, c, d) = mesh.limits in
      let row = eigen_text form ((x ∷ xs) ∷ []) in
      let (after, values) =
        values_read form x xs written blank_before blank_prefix blank_separator separates stops in
      let whole : d0 * d1 % u64 ≡ length (x ∷ xs) = omega arith in
      bind-ok _ (printed mesh precision form x xs p e)
      ∙ bind-ok _ (dims_read count number counts near readable d0 d1 _)
      ∙ bind-ok _ (lims_read a b c d row)
      ∙ bind-ok _ (
          ap (λ n. parse_one_dim count number default_format (some n) (good_input (b'\n' ∷ row)))
            whole
          ∙ values)
      ∙ ap
          (λ l.
            construct_meshes (record (new_mesh_creator true) { data_2 = map near l })
              mesh.dimensions (near a, near b, near c, near d))
          (sym e)
      ∙ constructed_over mesh (new_mesh_creator true) (map near mesh.data_2) mesh.dimensions
          (near a, near b, near c, near d)
