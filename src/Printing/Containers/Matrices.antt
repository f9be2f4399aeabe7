-- ===== src/Printing/Containers/Matrices.antt =====
-- A matrix that is written with its dimensions is read back.
use mathlib.Core.List.{append_assoc}
use distributed_math_arh.Prelude.{
  ℕ, map, suc, ◌≡◌, ◌≢◌, refl, sym, ap, ◌∙◌, Bool, true, List, [], ◌∷◌, ◌++◌, All, length, none,
}
use distributed_math_arh.Outcome.{Outcome, ok}
use distributed_math_arh.Printing.{Input, good_input, Format}
use distributed_math_arh.Printing.Coordinates.{IsReadable}
use distributed_math_arh.Printing.Formats.{EFormat}
use distributed_math_arh.Printing.Containers.{
  MatrixType, matrix_print_2d, read_row, read_rows, parse_matrix,
}
use distributed_math_arh.Printing.Containers.RoundTrip.{
  Blank, Blank-append, Ends, after_number, IsReadableTo, Separates, Separates-Ends, row_text,
  element_read,
}

Separates-append :
    (ends : ℕ → Bool) (a b c : List ℕ) → Separates ends (a ++ b) → Separates ends (a ++ (b ++ c))
Separates-append ends [] [] c h = absurd h
Separates-append ends [] (x ∷ b) c h = h
Separates-append ends (x ∷ a) b c h = h

-- What Eigen writes between two rows; `spacer` aligns the row.
abbrev pub gap : EFormat → List ℕ → List ℕ
gap form spacer = form.row_suffix ++ (form.row_separator ++ (spacer ++ form.row_prefix))

-- The delimiters are blank, and numbers end before what stands between two elements and two rows.
abbrev pub IsBlankFormat : (ℕ → Bool) → EFormat → Type 0
IsBlankFormat ends form =
    (Blank form.mat_prefix × Blank form.row_prefix × Blank form.row_suffix)
    × (Blank form.row_separator × Blank form.coeff_separator)
    × (Separates ends form.coeff_separator × Separates ends (form.row_suffix ++ form.row_separator))
    × Ends ends (form.row_suffix ++ form.mat_suffix)

module _ {F : Type 0} (number : Format F) where
  abbrev pub more_rows : EFormat → List ℕ → (F → List ℕ) → List (List F) → List ℕ
  more_rows form spacer pad [] = form.row_suffix ++ form.mat_suffix
  more_rows form spacer pad (row ∷ rows) =
      gap form spacer ++ row_text number form pad row (more_rows form spacer pad rows)

  pub no_more : (input : Input) → read_row number 0 input ≡ ([], input)
  unfolding read_row
  no_more input = refl

  pub read_row_step :
      (n : ℕ) (input : Input) (x : F) (after : Input) (xs : List F) (later : Input)
      → number.read input ≡ (x, after)
      → read_row number n after ≡ (xs, later)
      → read_row number (suc n) input ≡ (x ∷ xs, later)
  unfolding read_row
  read_row_step n input x after xs later e h = rw (e, h) refl

  module _ (ends : ℕ → Bool) (near : F → F)
      (numbers : (x : F) → IsReadableTo ends number x (near x)) (form : EFormat) (spacer : List ℕ)
      (pad : F → List ℕ) (blank_spacer : Blank spacer) (blank_pads : (x : F) → Blank (pad x))
      (blank_form : IsBlankFormat ends form) where
    read_row_lem :
        (x : F) (xs : List F) (lead tail : List ℕ)
        → Blank lead
        → Ends ends tail
        → read_row number
            (length (x ∷ xs))
            (good_input (lead ++ row_text number form pad (x ∷ xs) tail))
          ≡ (map near (x ∷ xs), after_number tail)
    read_row_lem x [] lead tail h k =
        read_row_step 0 _ (near x) (after_number tail) [] (after_number tail)
          (element_read number ends near numbers form pad blank_pads x lead tail h k)
          (no_more (after_number tail))
    read_row_lem x (y ∷ xs) lead tail h k =
        let later = row_text number form pad (y ∷ xs) tail in
        let (ended, stopped) = Separates-Ends ends form.coeff_separator later (blank_form.2.0) in
        read_row_step (length (y ∷ xs)) _ (near x) (good_input (form.coeff_separator ++ later))
          (map near (y ∷ xs)) (after_number tail)
          (element_read number ends near numbers form pad blank_pads x lead
              (form.coeff_separator ++ later) h ended
            ∙ ap (λ input. (near x, input)) stopped)
          (read_row_lem y xs form.coeff_separator tail (blank_form.1.1) k)

    row_read :
        (cols : ℕ) (row : List F) (lead tail : List ℕ)
        → cols ≢ 0
        → length row ≡ cols
        → Blank lead
        → Ends ends tail
        → read_row number cols (good_input (lead ++ row_text number form pad row tail))
          ≡ (map near row, after_number tail)
    row_read cols [] lead tail some_cols e h k = absurd (some_cols (sym e))
    row_read cols (x ∷ xs) lead tail some_cols e h k =
        ap (λ n. read_row number n (good_input (lead ++ row_text number form pad (x ∷ xs) tail)))
          (sym e)
        ∙ read_row_lem x xs lead tail h k

    gap-Separates : Separates ends (gap form spacer)
    gap-Separates =
        Separates-append ends form.row_suffix form.row_separator (spacer ++ form.row_prefix)
          (blank_form.2.1)

    gap-Blank : Blank (gap form spacer)
    gap-Blank =
        Blank-append form.row_suffix (form.row_separator ++ (spacer ++ form.row_prefix))
          (blank_form.0.2)
          (Blank-append form.row_separator (spacer ++ form.row_prefix) (blank_form.1.0)
            (Blank-append spacer form.row_prefix blank_spacer (blank_form.0.1)))

    more_rows-Ends : (rows : List (List F)) → Ends ends (more_rows form spacer pad rows)
    more_rows-Ends [] = blank_form.3
    more_rows-Ends (row ∷ rows) =
        (Separates-Ends ends (gap form spacer)
          (row_text number form pad row (more_rows form spacer pad rows)) gap-Separates).0

    read_rows_lem :
        (cols : ℕ) (row : List F) (rows : List (List F)) (lead : List ℕ)
        → cols ≢ 0
        → All (λ r. length r ≡ cols) (row ∷ rows)
        → Blank lead
        → (read_rows number cols
            (length (row ∷ rows))
            (good_input (lead ++ row_text number form pad row (more_rows form spacer pad rows)))).0
          ≡ map (map near) (row ∷ rows)
    unfolding read_rows
    read_rows_lem cols row [] lead some_cols e h =
        rw
          (row_read cols row lead (more_rows form spacer pad []) some_cols (e.0) h
            (more_rows-Ends []))
          refl
    read_rows_lem cols row (next ∷ rows) lead some_cols e h =
        let later = row_text number form pad next (more_rows form spacer pad rows) in
        rw
          (
            row_read cols row lead (gap form spacer ++ later) some_cols (e.0) h
                (more_rows-Ends (next ∷ rows)),
            (Separates-Ends ends (gap form spacer) later gap-Separates).1,
          )
          (ap (λ l. map near row ∷ l)
            (read_rows_lem cols next rows (gap form spacer) some_cols (e.1) gap-Blank))

  abbrev matrix_of : ℕ → ℕ → List (List F) × Input → Outcome (MatrixType F × Input)
  matrix_of n cols read = ok (record { rows = n; cols = cols; cells = read.0 }, read.1)

  matrix_read :
      (n cols : ℕ) (cells : List (List F)) (input : Input)
      → (read_rows number cols n input).0 ≡ cells
      → (after : Input) × (matrix_of n cols (read_rows number cols n input)
          ≡ ok (record { rows = n; cols = cols; cells = cells }, after))
  matrix_read n cols cells input e =
      let after = (read_rows number cols n input).1 in
      (after, ap (λ (c : List (List F)). matrix_of n cols (c, after)) e)

  -- What Eigen makes of a matrix with elements: the rows, which it may align, between the delimiters.
  abbrev pub WritesRows :
      (EFormat → List (List F) → List ℕ) → EFormat → List F → List (List F) → Type 0
  WritesRows eigen_text form row rows =
      (spacer : List ℕ) × (pad : F → List ℕ) × Blank spacer
      × ((x : F) → Blank (pad x))
      × (eigen_text form (row ∷ rows)
          ≡ form.mat_prefix
            ++ (form.row_prefix ++ row_text number form pad row (more_rows form spacer pad rows)))

  module _ (count : Format ℕ) (eigen_text : EFormat → List (List F) → List ℕ) (ends : ℕ → Bool)
      (counts : (n : ℕ) → IsReadable count n) (near : F → F)
      (numbers : (x : F) → IsReadableTo ends number x (near x)) where
    -- Where the text of every number x is read as a number near x, and every count is read as itself, a
    -- matrix with elements that is written with its dimensions is read back with the same dimensions and
    -- the numbers near its own. Eigen writes the rows between the delimiters of the format, which are
    -- blank, and numbers end before what stands between two elements, between two rows and after the
    -- last row.
    pub parse_matrix-matrix_print_2d :
        (form : EFormat) (cols : ℕ) (row : List F) (rows : List (List F))
        → WritesRows eigen_text form row rows
        → IsBlankFormat ends form
        → cols ≢ 0
        → All (λ r. length r ≡ cols) (row ∷ rows)
        → let matr : MatrixType F = record {
          rows = length (row ∷ rows);
          cols = cols;
          cells = row ∷ rows;
        } in
          (after : Input) × (parse_matrix count number none
              (good_input (matrix_print_2d count eigen_text form true matr))
            ≡ ok (record matr { cells = map (map near) matr.cells }, after))
    unfolding matrix_print_2d parse_matrix
    parse_matrix-matrix_print_2d form cols row rows (spacer, pad, blank_spacer, blank_pads, written)
          blank some_cols e =
        let later = row_text number form pad row (more_rows form spacer pad rows) in
        let text = form.mat_prefix ++ (form.row_prefix ++ later) in
        let n = length (row ∷ rows) in
        let lead = b'\n' ∷ (form.mat_prefix ++ form.row_prefix) in
        let cells =
          ap (λ t. (read_rows number cols n (good_input (b'\n' ∷ t))).0)
            (sym (append_assoc form.mat_prefix form.row_prefix later))
          ∙ read_rows_lem ends near numbers form spacer pad blank_spacer blank_pads blank cols row
              rows lead some_cols e
              (refl, Blank-append form.mat_prefix form.row_prefix (blank.0.0) (blank.0.1)) in
        rw
          (
            written,
            counts n [] (count.show cols ++ b'\n' ∷ text) b'\t' tt refl,
            counts cols (b'\t' ∷ []) text b'\n' (refl, tt) refl,
          )
          (matrix_read n cols (map (map near) (row ∷ rows)) (good_input (b'\n' ∷ text)) cells)
