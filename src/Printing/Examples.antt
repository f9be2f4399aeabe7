-- ===== src/Printing/Examples.antt =====
-- Tests and instances for `Printing`: numbers of one digit are 0 and 1, and a count is written as that
-- many strokes.
use distributed_math_arh.Prelude.{
  ℕ, zero, suc, ◌≡◌, refl, ap, ◌∙◌, arith, Bool, true, false, List, [], ◌∷◌, ◌++◌, All, nat_beq,
  if◌then◌else◌, replicate, some, ◌↔◌, ◌⊎◌,
}
use distributed_math_arh.Outcome.{ok, throw, io_error}
use distributed_math_arh.ConnectionString.{decimal}
use distributed_math_arh.Numbers.Binary.{binary}
use distributed_math_arh.Printing.{
  Input, good_input, is_space, Format, codes, is_only_whitespace, parse_delim, print_coordinates_2,
  parse_coordinates, print_solution_format_1, parse_solution, read_coordinates, get_line,
}
use distributed_math_arh.Printing.Delimiters.{parse_delim_iff}
use distributed_math_arh.Printing.Coordinates.{
  IsReadable, parse_coordinates-print_coordinates_2, parse_solution-print_solution_format_1,
}
use distributed_math_arh.Printing.Formats.{EFormat, after_spaces, print_format, read_format}
use distributed_math_arh.Printing.Formats.RoundTrip.{read_format-print_format}

pub after_spaces-append :
    (blanks : List ℕ) (c : ℕ) (rest : List ℕ)
    → All (λ b. is_space b ≡ true) blanks
    → is_space c ≡ false
    → after_spaces (blanks ++ c ∷ rest) ≡ c ∷ rest
after_spaces-append [] c rest h k = rw k
after_spaces-append (b ∷ blanks) c rest h k = rw (h.0) (after_spaces-append blanks c rest h.1 k)

abbrev digit_of : List ℕ → Bool × Input
digit_of [] = (false, record { rest = []; failed = true; ended = true })
digit_of (c ∷ cs) = (nat_beq c b'1', good_input cs)

abbrev pub digits : Format Bool
digits = record {
  show = λ x. (if x then b'1' else b'0') ∷ [];
  read = λ input. digit_of (after_spaces input.rest);
}

pub digits-IsReadable : (x : Bool) → IsReadable digits x
digits-IsReadable true blanks rest c h k =
    ap digit_of (after_spaces-append blanks b'1' (c ∷ rest) h refl)
digits-IsReadable false blanks rest c h k =
    ap digit_of (after_spaces-append blanks b'0' (c ∷ rest) h refl)

-- A number is its strokes, ended by a stop.
abbrev strokes_of : List ℕ → ℕ × Input
strokes_of [] = (0, record { rest = []; failed = true; ended = true })
strokes_of (c ∷ cs) =
    let later = strokes_of cs in
    if nat_beq c b'|' then (suc later.0, later.1) else (0, good_input cs)

abbrev pub strokes : Format ℕ
strokes = record {
  show = λ n. replicate n b'|' ++ b'.' ∷ [];
  read = λ input. strokes_of (after_spaces input.rest);
}

strokes_read :
    (n c : ℕ) (rest : List ℕ) → strokes_of (strokes.show n ++ c ∷ rest) ≡ (n, good_input (c ∷ rest))
strokes_read zero c rest = refl
strokes_read (suc n) c rest = rw (strokes_read n c rest)

pub strokes-IsReadable : (n : ℕ) → IsReadable strokes n
strokes-IsReadable zero blanks rest c h k =
    ap strokes_of (after_spaces-append blanks b'.' (c ∷ rest) h refl)
strokes-IsReadable (suc n) blanks rest c h k =
    ap strokes_of (after_spaces-append blanks b'|' (strokes.show n ++ c ∷ rest) h refl)
    ∙ strokes_read (suc n) c rest

two_dipoles_are_read :
    parse_coordinates strokes digits
      (good_input (print_coordinates_2 strokes digits (true ∷ false ∷ true ∷ true ∷ [])))
    ≡ ok (true ∷ false ∷ true ∷ true ∷ [])
two_dipoles_are_read =
    parse_coordinates-print_coordinates_2 strokes digits (λ x. x) strokes-IsReadable
      digits-IsReadable (true ∷ false ∷ true ∷ true ∷ []) (omega arith)

one_solution_is_read :
    parse_solution strokes digits
      (good_input (print_solution_format_1 strokes digits (true ∷ false ∷ false ∷ true ∷ [])))
    ≡ ok (true ∷ false ∷ false ∷ true ∷ [])
one_solution_is_read =
    parse_solution-print_solution_format_1 strokes digits (λ x. x) strokes-IsReadable
      digits-IsReadable (true ∷ false ∷ false ∷ true ∷ []) (omega arith)

separator_is_read :
    ((parse_delim (codes ";;") (good_input (codes ";; 1"))).0 ≡ true ↔ (
      (is_only_whitespace (codes ";;") ≡ true)
      ⊎ (codes ";; 1"
          ≡ codes ";;" ++ (parse_delim (codes ";;") (good_input (codes ";; 1"))).1.rest)))
    × (is_only_whitespace (codes ";;") ≡ true
        → (parse_delim (codes ";;") (good_input (codes ";; 1"))).1 ≡ good_input (codes ";; 1"))
separator_is_read = parse_delim_iff (codes ";;") (codes ";; 1")

-- A format whose separators have a quote, a backslash and a line feed in them.
abbrev odd_format : EFormat
odd_format = record {
  precision = 3;
  flags = 1;
  coeff_separator = codes "\"\\\"";
  row_separator = codes "\n";
  row_prefix = [];
  row_suffix = codes "]";
  mat_prefix = codes "{ ";
  mat_suffix = codes " }";
  fill = b' ';
}

read_format-print_format_example :
    read_format strokes (good_input (print_format strokes odd_format (codes " 5")))
    ≡ (some odd_format, good_input (codes " 5"))
read_format-print_format_example =
    read_format-print_format strokes strokes-IsReadable odd_format (codes " 5")

-- Coordinates that end too early are not noticed: what is not there is read as 0.
missing_numbers :
    parse_coordinates strokes digits (good_input (codes "c\n||.\n1 1 1"))
    ≡ ok (true ∷ true ∷ true ∷ false ∷ [])
unfolding parse_coordinates read_coordinates get_line decimal
missing_numbers = refl

no_count : parse_coordinates strokes digits (good_input (codes "c\n")) ≡ throw (io_error "6")
unfolding parse_coordinates read_coordinates get_line decimal
no_count = refl
