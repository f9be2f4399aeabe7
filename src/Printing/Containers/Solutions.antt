-- ===== src/Printing/Containers/Solutions.antt =====
-- Solutions and coordinates are read back in the format in which they were written.
use distributed_math_arh.Prelude.{
  ℕ, map, ◌*◌, ◌≤◌, ◌∙◌, arith, ◌%◌, ◌≡◌, Bool, true, List, [], ◌∷◌, ◌++◌, length, none, some,
  if◌then◌else◌,
}
use distributed_math_arh.Outcome.{ok, ◌>>=◌, bind-ok}
use distributed_math_arh.Enums.Network.{IoFormat, serializable, human_readable}
use distributed_math_arh.Numbers.{Numbers}
use distributed_math_arh.Printing.{good_input, is_space, Format}
use distributed_math_arh.Printing.Coordinates.{
  IsReadable, IsReadableAs, parse_coordinates-print_coordinates_2,
  parse_solution-print_solution_format_1,
}
use distributed_math_arh.Printing.Formats.{EFormat, default_prec, ios_state_scientific}
use distributed_math_arh.Printing.Containers.{
  one_dim_serialize, print_solution, read_solution_as, print_coordinates, read_coordinates_as,
}
use distributed_math_arh.Printing.Containers.RoundTrip.{
  Blank, Ends, IsReadableTo, Separates, WritesRow, parse_one_dim-one_dim_serialize,
}

-- What is readable to its end is readable before a blank, if blanks end it.
pub IsReadableTo-IsReadableAs :
    {A : Type 0} (ends : ℕ → Bool) (format : Format A) (a b : A)
    → ((c : ℕ) → is_space c ≡ true → ends c ≡ true)
    → IsReadableTo ends format a b
    → IsReadableAs format a b
IsReadableTo-IsReadableAs ends format a b blank_ends h blanks rest c blank space =
    h blanks (c ∷ rest) blank (blank_ends c space)

pub ios_state_scientific-ok :
    (precision : ℕ) → precision ≤ 10 * default_prec → ios_state_scientific precision ≡ ok tt
unfolding ios_state_scientific
ios_state_scientific-ok precision h = ground (arith, h)

module _ {F : Type 0} ⦃num : Numbers F⦄ (count : Format ℕ) (number : Format F)
    (eigen_text : EFormat → List (List F) → List ℕ) (ends : ℕ → Bool)
    (blank_ends : (c : ℕ) → is_space c ≡ true → ends c ≡ true)
    (counts : (n : ℕ) → IsReadable count n) (near : F → F)
    (numbers : (x : F) → IsReadableTo ends number x (near x)) where
  readable : (x : F) → IsReadableAs number x (near x)
  readable x = IsReadableTo-IsReadableAs ends number x (near x) blank_ends (numbers x)

  -- What Eigen writes in the format can be taken apart again.
  abbrev pub IsSeparable : EFormat → Bool → List F → Type 0
  IsSeparable form size row =
      WritesRow number eigen_text form row
      × (form.mat_prefix ≡ [])
      × Separates ends form.coeff_separator
      × Ends ends (form.row_suffix ++ form.mat_suffix)
      × (size ≡ true → Blank form.row_prefix)

  -- What each format asks for, where a container for people has a number of elements that k divides.
  abbrev pub IsWritable : ℕ → IoFormat → ℕ → EFormat → Bool → List F → Type 0
  IsWritable k serializable precision form size row = IsSeparable form size row
  IsWritable k human_readable precision form size row =
      (precision ≤ 10 * default_prec) × (length row % k ≡ 0)

  -- Where the text of every number x is read as a number near x, and every count is read as itself, a
  -- solution that is not empty is read back, in the format in which it was written, as the numbers near
  -- its own: in the form for people if it has 4 * n numbers and the precision of the stream is at
  -- most 150; in the format of Eigen, with its size or without it as it was written, if Eigen writes the
  -- row as padded numbers between the delimiters of the format and puts nothing before the row prefix, the separator and what ends the row begin with a character that
  -- ends a number, and a row prefix after a size is blank. Blanks end a number.
  pub read_solution_as-print_solution :
      (format : IoFormat) (precision : ℕ) (form : EFormat) (size : Bool) (x : F) (xs : List F)
      → IsWritable 4 format precision form size (x ∷ xs)
      → (print_solution count number eigen_text format precision form size (x ∷ xs) >>= λ text.
          read_solution_as count number eigen_text format form
            (if size then none else some (length (x ∷ xs)))
            (good_input text))
        ≡ ok (map near (x ∷ xs))
  unfolding print_solution read_solution_as one_dim_serialize
  read_solution_as-print_solution serializable precision form size x xs
        (written, no_prefix, separates, stops, blank) =
      let (after, e) =
        parse_one_dim-one_dim_serialize number count eigen_text ends counts near numbers form size x
          xs written no_prefix separates stops blank in
      bind-ok _ e
  read_solution_as-print_solution human_readable precision form size x xs (p, h) =
      bind-ok _ (bind-ok _ (ios_state_scientific-ok precision p))
      ∙ parse_solution-print_solution_format_1 count number near counts readable (x ∷ xs) h

  -- Where the text of every number x is read as a number near x, and every count is read as itself,
  -- coordinates that are not empty are read back, in the format in which they were written, as the
  -- numbers near their own: in the form for people if they are an even number and the precision of the
  -- stream is at most 150; in the format of Eigen if Eigen writes the row as padded numbers between the
  -- delimiters, with nothing before
  -- the row prefix, a separator and an end of the row that begin with a character that ends a number,
  -- and, after a size, a blank row prefix. Blanks end a number.
  pub read_coordinates_as-print_coordinates :
      (format : IoFormat) (precision : ℕ) (form : EFormat) (size : Bool) (x : F) (xs : List F)
      → IsWritable 2 format precision form size (x ∷ xs)
      → (print_coordinates count number eigen_text format precision form size (x ∷ xs) >>= λ text.
          read_coordinates_as count number eigen_text format form
            (if size then none else some (length (x ∷ xs)))
            (good_input text))
        ≡ ok (map near (x ∷ xs))
  unfolding print_coordinates read_coordinates_as one_dim_serialize
  read_coordinates_as-print_coordinates serializable precision form size x xs
        (written, no_prefix, separates, stops, blank) =
      let (after, e) =
        parse_one_dim-one_dim_serialize number count eigen_text ends counts near numbers form size x
          xs written no_prefix separates stops blank in
      bind-ok _ e
  read_coordinates_as-print_coordinates human_readable precision form size x xs (p, h) =
      bind-ok _ (bind-ok _ (ios_state_scientific-ok precision p))
      ∙ parse_coordinates-print_coordinates_2 count number near counts readable (x ∷ xs) h
