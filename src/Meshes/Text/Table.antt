-- ===== src/Meshes/Text/Table.antt =====
-- A mesh that is written as a table for people is read back.
use distributed_math_arh.Prelude.{
  ℕ, zero, suc, ◌+◌, ◌*◌, ◌-◌, ◌<◌, ◌≤◌, ◌≡◌, refl, sym, ap, ◌∙◌, arith, true, false, List, [], ◌∷◌,
  map, ◌++◌, length, get_or, ltb, if◌then◌else◌,
}
use distributed_math_arh.Outcome.{Outcome, ok, undefined, ◌>>=◌, bind-ok}
use distributed_math_arh.Numbers.{Numbers}
use distributed_math_arh.Meshes.{MeshCreator, new_mesh_creator, construct_meshes}
use distributed_math_arh.Meshes.Text.{
  at, entries, dec_lines, has_elements, print_dec, title, corner, skip_word, read_grid, parse_dec,
}
use distributed_math_arh.Printing.{good_input, Format, get_line}
use distributed_math_arh.Printing.Coordinates.{
  IsReadable, IsReadableAs, IsLine, get_line-append, slice, slice_whole,
}
use distributed_math_arh.Printing.Containers.{columns_from}
use distributed_math_arh.Meshes.Text.Lines.{
  dims_read, entries_skipped, printed_rows, grid_read, corner_skipped, get_or-slice,
  columns_printed, angles_read, constructed_twice,
}

last_row : (a b : ℕ) → 1 ≤ a → a * b ≡ (a - 1) * b + b
last_row zero b h = absurd (omega (arith, h))
last_row (suc n) b h = let e : suc n - 1 ≡ n = omega arith in rw e (grind arith)

module _ {F : Type 0} ⦃num : Numbers F⦄ where
  -- The numbers near the angles at the ends of the table.
  abbrev pub printed_limits : (F → F) → MeshCreator F → F × F × F × F
  printed_limits near mesh = (
    near (get_or mesh.data_1 0 (num.lit 0)),
    near (get_or mesh.data_1 ((mesh.dimensions.0 - 1) * mesh.dimensions.1) (num.lit 0)),
    near (get_or mesh.data_0 0 (num.lit 0)),
    near (get_or mesh.data_0 (mesh.dimensions.1 - 1) (num.lit 0)),
  )

  -- The mesh with the numbers near its values.
  abbrev pub nearly : (F → F) → MeshCreator F → MeshCreator F
  nearly near mesh = record mesh { data_2 = map near mesh.data_2 }

module _ {F : Type 0} ⦃num : Numbers F⦄ (count : Format ℕ) (number : Format F)
    (counts : (n : ℕ) → IsReadable count n) (near : F → F)
    (numbers : (x : F) → IsReadableAs number x (near x)) where
  module _ (mesh : MeshCreator F) (rows_2 : 2 ≤ mesh.dimensions.0) (cols_1 : 1 ≤ mesh.dimensions.1)
      (size_0 : length mesh.data_0 ≡ mesh.dimensions.0 * mesh.dimensions.1)
      (size_1 : length mesh.data_1 ≡ mesh.dimensions.0 * mesh.dimensions.1)
      (size_2 : length mesh.data_2 ≡ mesh.dimensions.0 * mesh.dimensions.1) where
    complete : has_elements count number mesh ≡ true
    complete =
        let d0 = mesh.dimensions.0 in
        let d1 = mesh.dimensions.1 in
        let e : d0 * d1 ≡ (d0 - 1) * d1 + d1 = last_row d0 d1 (omega (arith, rows_2)) in
        let inside : (d0 - 1) * d1 < length mesh.data_1 = omega arith in
        let least : d1 ≤ d0 * d1 = omega (arith, e) in
        let few : d1 ≤ length mesh.data_0 = omega arith in ground (arith, inside, few, size_2)

    rows_split : mesh.dimensions.0 ≡ suc (mesh.dimensions.0 - 1)
    rows_split = omega arith

    values_read :
        columns_from
          (printed_rows count number counts near numbers mesh mesh.dimensions.1 0)
          0
          mesh.dimensions.0
        ≡ map near mesh.data_2
    values_read =
        columns_printed count number counts near numbers mesh mesh.dimensions.0 0 (omega arith)
        ∙ ap (λ n. map near (slice mesh.data_2 n (0 * mesh.dimensions.1))) (sym size_2)
        ∙ ap (λ i. map near (slice mesh.data_2 (length mesh.data_2) i)) (omega arith)
        ∙ ap (map near) (slice_whole mesh.data_2)

    grid_of_rows :
        read_grid count number mesh.dimensions.0 mesh.dimensions.1
          (good_input (b'\n' ∷ dec_lines count number mesh mesh.dimensions.1 0))
        ≡ (
          map near (slice mesh.data_0 mesh.dimensions.1 0),
          printed_rows count number counts near numbers mesh mesh.dimensions.1 0,
        )
    grid_of_rows =
        ap
          (λ n.
            read_grid count number n mesh.dimensions.1
              (good_input (b'\n' ∷ dec_lines count number mesh mesh.dimensions.1 0)))
          rows_split
        ∙ grid_read count number counts near numbers mesh mesh.dimensions.1 0

    printed :
        print_dec count number mesh
        ≡ ok (
            count.show mesh.dimensions.0
            ++ b'\t'
              ∷ (count.show mesh.dimensions.1
                  ++ b'\n'
                    ∷ (title
                        ++ b'\n'
                          ∷ (corner
                              ++ entries count number
                                  (λ i. at count number mesh.data_1 (i * mesh.dimensions.1))
                                  0
                                  (mesh.dimensions.0 - 1)
                                  (dec_lines count number mesh mesh.dimensions.1 0)))))
    unfolding print_dec
    printed = rw complete refl

    abbrev rebuilt : F × F × F × F → List F → Outcome (MeshCreator F)
    rebuilt lims values = do
      m ←
          if ltb mesh.dimensions.0 2
          then undefined
          else construct_meshes (new_mesh_creator true) mesh.dimensions lims
      construct_meshes (record m { data_2 = values }) mesh.dimensions lims

    abbrev theta : ℕ → F
    theta i = at count number mesh.data_1 (i * mesh.dimensions.1)

    headed :
        (table : List ℕ)
        → skip_word
            (get_line (get_line (good_input (b'\n' ∷ (title ++ b'\n' ∷ (corner ++ table))))))
          ≡ good_input (b'\t' ∷ b'\t' ∷ table)
    headed table =
        let no_break : IsLine title = ground arith in
        rw
          (
            get_line-append [] (title ++ b'\n' ∷ (corner ++ table)) tt,
            get_line-append title (corner ++ table) no_break,
          )
          (corner_skipped count number counts near numbers table)

    parsed :
        parse_dec count number (
          good_input (
            count.show mesh.dimensions.0
            ++ b'\t'
              ∷ (count.show mesh.dimensions.1
                  ++ b'\n'
                    ∷ (title
                        ++ b'\n'
                          ∷ (corner
                              ++ entries count number theta 0
                                  (mesh.dimensions.0 - 1)
                                  (dec_lines count number mesh mesh.dimensions.1 0))))))
        ≡ rebuilt
            (
              near (theta 0),
              near (theta (1 + (mesh.dimensions.0 - 2))),
              at count number (map near (slice mesh.data_0 mesh.dimensions.1 0)) 0,
              at count number
                  (map near (slice mesh.data_0 mesh.dimensions.1 0))
                  (mesh.dimensions.1 - 1),
            )
            (map near mesh.data_2)
    unfolding parse_dec
    parsed =
        let lines = dec_lines count number mesh mesh.dimensions.1 0 in
        let table = entries count number theta 0 (mesh.dimensions.0 - 1) lines in
        let k : mesh.dimensions.0 - 1 ≡ suc (mesh.dimensions.0 - 2) = omega arith in
        let first : number.read (good_input (b'\t' ∷ b'\t' ∷ table)) ≡ (
          near (theta 0),
          good_input (b'\t' ∷ entries count number theta 1 (mesh.dimensions.0 - 2) lines),
        ) =
          ap (λ n. number.read (good_input (b'\t' ∷ b'\t' ∷ entries count number theta 0 n lines)))
            k
          ∙ angles_read count number counts near numbers theta (mesh.dimensions.0 - 2) lines in
        let last =
          entries_skipped count number counts near numbers theta (mesh.dimensions.0 - 2) 1 b'\t'
            lines refl in
        bind-ok _ (
          dims_read count number counts near numbers mesh.dimensions.0 mesh.dimensions.1
            (title ++ b'\n' ∷ (corner ++ table)))
        ∙ rw (headed table, first, last, grid_of_rows, values_read) refl

    -- Where the text of every number x is read as a number near x, and every count is read as itself, a
    -- mesh of two angles theta or more and of one angle phi or more, whose arrays have one element for
    -- each point, is written as a table and is read back as a mesh of the same dimensions, with the
    -- numbers near its values and between the numbers near the angles at the ends of the table; where
    -- such a mesh cannot be constructed, reading fails in the same way.
    pub parse_dec-print_dec :
        (print_dec count number mesh >>= λ text. parse_dec count number (good_input text))
        ≡ construct_meshes (nearly near mesh) mesh.dimensions (printed_limits near mesh)
    parse_dec-print_dec =
        let first : 0 * mesh.dimensions.1 ≡ 0 = omega arith in
        let last : 1 + (mesh.dimensions.0 - 2) ≡ mesh.dimensions.0 - 1 = omega arith in
        let angle_0 =
          get_or-slice count number counts near numbers mesh.data_0 mesh.dimensions.1 0 0
            (omega arith) in
        let angle_1 =
          get_or-slice count number counts near numbers mesh.data_0 mesh.dimensions.1
            (mesh.dimensions.1 - 1) 0 (omega arith) in
        let rows : ltb mesh.dimensions.0 2 ≡ false = ground (arith, rows_2) in
        let z : 0 + 0 ≡ 0 = omega arith in
        let z' : 0 + (mesh.dimensions.1 - 1) ≡ mesh.dimensions.1 - 1 = omega arith in
        bind-ok _ printed
        ∙ parsed
        ∙ rw (first, last, angle_0, angle_1, z, z', rows)
            (constructed_twice count number counts near numbers (nearly near mesh)
              (new_mesh_creator true) mesh.dimensions (printed_limits near mesh))
