-- ===== src/Printing/Formats.antt =====
-- The formats of Eigen as text, and the output streams whose state is saved
-- (lib/common/printUtils.cpp). A text in quotes is what std::quoted makes and reads.
pub mod RoundTrip
use distributed_math_arh.Prelude.{
  ℕ, ◌*◌, Bool, true, false, ◌||◌, List, [], ◌∷◌, ◌++◌, Option, none, some, length, nat_beq, ltb,
  if◌then◌else◌,
}
use distributed_math_arh.Outcome.{Outcome, ok, throw, out_of_range}
use distributed_math_arh.Printing.{Input, good_input, good, set_failed, is_space, Format}

-- Eigen::IOFormat; `precision` and `flags` are bit patterns of `int`.
pub record EFormat : Type 0 where
  pub precision : ℕ
  pub flags : ℕ
  pub coeff_separator : List ℕ
  pub row_separator : List ℕ
  pub row_prefix : List ℕ
  pub row_suffix : List ℕ
  pub mat_prefix : List ℕ
  pub mat_suffix : List ℕ
  pub fill : ℕ

-- kDefaultPrec, for double
abbrev pub default_prec : ℕ
default_prec = 15

-- IosStateScientific(out, precision), for as long as something is printed
unfoldable pub ios_state_scientific : ℕ → Outcome (Unit {0})
ios_state_scientific precision =
    if ltb (10 * default_prec) precision
    then throw (out_of_range precision 0 (10 * default_prec))
    else ok tt

-- A quote or a backslash inside of quotes
abbrev pub is_special : ℕ → Bool
is_special c = nat_beq c b'"' || nat_beq c b'\\'

abbrev pub escaped : List ℕ → List ℕ → List ℕ
escaped [] later = later
escaped (c ∷ cs) later =
    let rest = escaped cs later in if is_special c then b'\\' ∷ c ∷ rest else c ∷ rest

-- os << std::quoted(cs)
unfoldable pub quoted : List ℕ → List ℕ → List ℕ
quoted cs later = b'"' ∷ escaped cs (b'"' ∷ later)

-- The text up to the closing quote, and what follows it, if there is a closing quote; `slash` is
-- whether a backslash came before.
unfoldable pub unescaped : Bool → List ℕ → List ℕ × Option (List ℕ)
unescaped slash [] = ([], none)
unescaped slash (c ∷ cs) =
    let plain = unescaped false cs in
    let after = unescaped true cs in
    if slash
    then (c ∷ plain.0, plain.1)
    else if nat_beq c b'\\'
    then after
    else if nat_beq c b'"'
    then ([], some cs)
    else (c ∷ plain.0, plain.1)

abbrev pub after_spaces : List ℕ → List ℕ
after_spaces [] = []
after_spaces (c ∷ cs) = let later = after_spaces cs in if is_space c then later else c ∷ cs

-- is >> str, for a text that is not in quotes
abbrev pub word_of : List ℕ → List ℕ × List ℕ
word_of [] = ([], [])
word_of (c ∷ cs) =
    let later = word_of cs in if is_space c then ([], c ∷ cs) else (c ∷ later.0, later.1)

abbrev pub after_text : List ℕ → Option (List ℕ) → List ℕ × Input
after_text text none = (text, record { rest = []; failed = true; ended = true })
after_text text (some rest) = (text, good_input rest)

unfoldable pub read_word : List ℕ → List ℕ × Input
read_word [] = ([], record { rest = []; failed = true; ended = true })
read_word (c ∷ cs) =
    if nat_beq c b'"'
    then (let inside = unescaped false cs in after_text inside.0 inside.1)
    else (let word = word_of (c ∷ cs) in
        (word.0, record { rest = word.1; failed = false; ended = nat_beq (length word.1) 0 }))

-- is >> std::quoted(str), into an empty text
unfoldable pub read_quoted : Input → List ℕ × Input
read_quoted input =
    if good input then read_word (after_spaces input.rest) else ([], set_failed input)

module _ (number : Format ℕ) where
  -- os << fmt
  unfoldable pub print_format : EFormat → List ℕ → List ℕ
  print_format fmt later =
      number.show fmt.precision
      ++ b' '
        ∷ (number.show fmt.flags
            ++ b' '
              ∷ quoted fmt.coeff_separator (
                  b' '
                  ∷ quoted fmt.row_separator (
                      b' '
                      ∷ quoted fmt.row_prefix (
                          b' '
                          ∷ quoted fmt.row_suffix (
                              b' '
                              ∷ quoted fmt.mat_prefix (
                                  b' '
                                  ∷ quoted fmt.mat_suffix
                                      (b' ' ∷ quoted (fmt.fill ∷ []) later)))))))

  -- A fill of other than one character is an error, and the format is not assigned.
  abbrev pub with_fill : List ℕ → (ℕ → EFormat) → Input → Option EFormat × Input
  with_fill (c ∷ []) format input = (some (format c), input)
  with_fill _ format input = (none, set_failed input)

  -- is >> fmt: the format, if it is assigned
  unfoldable pub read_format : Input → Option EFormat × Input
  read_format input =
      let (precision, in_1) = number.read input in
      let (flags, in_2) = number.read in_1 in
      let (coeff_separator, in_3) = read_quoted in_2 in
      let (row_separator, in_4) = read_quoted in_3 in
      let (row_prefix, in_5) = read_quoted in_4 in
      let (row_suffix, in_6) = read_quoted in_5 in
      let (mat_prefix, in_7) = read_quoted in_6 in
      let (mat_suffix, in_8) = read_quoted in_7 in
      let (fill_str, in_9) = read_quoted in_8 in
      with_fill fill_str
        (λ fill. record {
          precision = precision;
          flags = flags;
          coeff_separator = coeff_separator;
          row_separator = row_separator;
          row_prefix = row_prefix;
          row_suffix = row_suffix;
          mat_prefix = mat_prefix;
          mat_suffix = mat_suffix;
          fill = fill;
        })
        in_9
