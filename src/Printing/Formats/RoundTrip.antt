-- ===== src/Printing/Formats/RoundTrip.antt =====
-- A format that is printed is read back.
use distributed_math_arh.Prelude.{ℕ, ◌≡◌, refl, arith, false, List, [], ◌∷◌, ◌++◌, some}
use distributed_math_arh.Printing.{good_input, Format}
use distributed_math_arh.Printing.Coordinates.{IsReadable}
use distributed_math_arh.Printing.Formats.{
  EFormat, escaped, quoted, unescaped, read_word, read_quoted, print_format, read_format,
}

unescaped-escaped :
    (cs later : List ℕ) → unescaped false (escaped cs (b'"' ∷ later)) ≡ (cs, some later)
unfolding unescaped
unescaped-escaped [] later = refl
unescaped-escaped (c ∷ cs) later = ground (arith, unescaped-escaped cs later)

-- A text in quotes, after a blank or at once, is read back.
read_quoted-quoted :
    (cs later : List ℕ) → read_quoted (good_input (b' ' ∷ quoted cs later)) ≡ (cs, good_input later)
unfolding read_word read_quoted quoted
read_quoted-quoted cs later = rw (unescaped-escaped cs later)

module _ (number : Format ℕ) (numbers : (n : ℕ) → IsReadable number n) where
  -- A format that is printed is read back, whatever characters its texts have, and what is left is the
  -- text that follows it, where every number is read back from its own text.
  pub read_format-print_format :
      (fmt : EFormat) (later : List ℕ)
      → read_format number (good_input (print_format number fmt later))
        ≡ (some fmt, good_input later)
  unfolding read_format print_format
  read_format-print_format fmt later =
      let t_9 = quoted (fmt.fill ∷ []) later in
      let t_8 = quoted fmt.mat_suffix (b' ' ∷ t_9) in
      let t_7 = quoted fmt.mat_prefix (b' ' ∷ t_8) in
      let t_6 = quoted fmt.row_suffix (b' ' ∷ t_7) in
      let t_5 = quoted fmt.row_prefix (b' ' ∷ t_6) in
      let t_4 = quoted fmt.row_separator (b' ' ∷ t_5) in
      let t_3 = quoted fmt.coeff_separator (b' ' ∷ t_4) in
      rw (
        numbers fmt.precision [] (number.show fmt.flags ++ b' ' ∷ t_3) b' ' tt refl,
        numbers fmt.flags (b' ' ∷ []) t_3 b' ' (refl, tt) refl,
        read_quoted-quoted fmt.coeff_separator (b' ' ∷ t_4),
        read_quoted-quoted fmt.row_separator (b' ' ∷ t_5),
        read_quoted-quoted fmt.row_prefix (b' ' ∷ t_6),
        read_quoted-quoted fmt.row_suffix (b' ' ∷ t_7),
        read_quoted-quoted fmt.mat_prefix (b' ' ∷ t_8),
        read_quoted-quoted fmt.mat_suffix (b' ' ∷ t_9),
        read_quoted-quoted (fmt.fill ∷ []) later,
      )
